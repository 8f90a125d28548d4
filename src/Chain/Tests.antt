-- ===== src/Chain/Tests.antt =====
-- Events of collectible comics of src/webhooks/helius/helius.service.ts, and their theorem at
-- concrete inputs.
use d_reader_backend.Mint.Items.{rare}
use d_reader_backend.Base.{refl, ◌≡◌, [], arith, ok, ◌∷◌, false, List, none, some}
use d_reader_backend.Chain.Model.{Index, Traits, Receipt}
use d_reader_backend.Chain.Metadata.{Json}
use d_reader_backend.Chain.Indexing.{Account}
use d_reader_backend.Chain.Handlers.{handle_legacy_transfer, handle_core_mint, Mint}
use d_reader_backend.Chain.Linked.{Linked}
use d_reader_backend.Chain.Linked.All.{
  Linked-handle_all, handle_all, Event, minted, legacy_transferred,
}
use d_reader_backend.Mint.Model.{processing, confirmed}

abbrev traits : Traits
traits = record { is_used = false; is_signed = false; rarity = rare }

abbrev receipt : Receipt
receipt = record { id = 3; signature = "sig"; status = processing; timestamp = 0; user_id = none }

abbrev index : Index
index = record {
  wallets = record { address = "ann"; user_id = some 7 } ∷ [];
  assets = [];
  comics = [];
  metadatas = [];
  collections = record { address = "series"; comic_issue_id = 4 } ∷ [];
  covers = record { comic_issue_id = 4; traits = traits; image = "cover.png" } ∷ [];
  machines = record { address = "machine"; items_minted = 0; items_remaining = 10 } ∷ [];
  receipts = receipt ∷ [];
  nonces = [];
  subscriptions = [];
}

abbrev json : Json
json = record {
  name = "Comic #1";
  collection_name = "Comic";
  attributes = ("used", "false") ∷ ("signed", "false") ∷ ("rarity", "Rare") ∷ [];
}

abbrev account : Account
account = record {
  address = "comic1";
  asset = ok (some (record { uri = "uri1"; name = "Comic #1"; owner_address = "ann" }));
  json = ok json;
  subscribed = ok tt;
}

abbrev mint : Mint
mint = record {
  signature = "sig";
  machine = "machine";
  collection = "series";
  seconds = 50;
  accounts = account ∷ [];
  items = ok (record { available = 10; redeemed = 1 });
  removed = ok tt;
}

abbrev events : List Event
events = minted mint 60 ∷ legacy_transferred "comic1" "bob" (ok tt) 70 ∷ []

index-Linked : Linked index
index-Linked = record {
  once_asset = λ a. ground arith;
  once_comic = λ a. ground arith;
  once_metadata = λ a. ground arith;
  comic_is_asset = λ a h. ground arith;
  comic_has_metadata = λ a h. ground arith;
  metadata_of_collection = λ a h. ground arith;
  owner_has_wallet = λ a h. ground arith;
}

Linked-handle_all_example : Linked (handle_all events index)
Linked-handle_all_example = Linked-handle_all events index index-Linked

-- the mint is confirmed for the user of the owner, and the comic is handed over
mint_confirmed :
    (handle_all events index).receipts
    ≡ record receipt { status = confirmed; timestamp = 50000; user_id = some 7 } ∷ []
unfolding handle_core_mint handle_legacy_transfer
mint_confirmed = refl

comic_stored :
    (handle_all events index).comics
    ≡ record {
      address = "comic1";
      name = "Comic #1";
      uri = "uri1";
      machine = "machine";
      receipt_id = some 3;
    }
      ∷ []
unfolding handle_core_mint handle_legacy_transfer
comic_stored = refl
