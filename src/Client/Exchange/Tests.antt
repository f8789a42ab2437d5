-- ===== src/Client/Exchange/Tests.antt =====
-- An exchange "x" that is imported, changed and deleted.
use signature_escrow.Common.{◌≡◌, ◌⊎◌, refl, sym, none, some, List, [], ◌∷◌, if◌then◌else◌}
use signature_escrow.Text.{bytes, ◌==◌}
use signature_escrow.Act.{ok}
use signature_escrow.Storage.{load, save}
use signature_escrow.Storage.Memory.{Values, assign}
use signature_escrow.Http.{content}
use signature_escrow.Client.Sample.{Encoded, exchanges, sample_store, empty, exchanges_codec}
use signature_escrow.Client.Exchange.{
  Exchange, ExchangeRequest, updated, replaced, imported, found_first, load_exchanges,
  save_exchanges, save_updated, save_upserted, update_exchange, upsert_exchange, exchanges_key,
}
use signature_escrow.Client.Exchange.Lookup.{lookup, upsert_exchange_stores}
use signature_escrow.Client.Exchange.Unique.{HasUnique, upsert, serve, serve-HasUnique}

abbrev request : ExchangeRequest
request = record {
  id = bytes "x";
  address_a = bytes "a";
  partner_a = [];
  status_a = bytes "new";
  address_b = bytes "b";
  partner_b = [];
  status_b = [];
  creator = bytes "me";
}

abbrev stored : Exchange
stored = imported request 7

abbrev begun : Values Encoded
begun = assign exchanges_key (some (exchanges (stored ∷ []))) empty

test_empty : load_exchanges sample_store empty ≡ ok []
unfolding load_exchanges load
test_empty = refl

test_upsert : (upsert_exchange sample_store (ok request) 7 empty).0 ≡ ok (content stored)
unfolding upsert_exchange save_upserted save_exchanges load_exchanges load save assign found_first
    bytes
test_upsert = refl

upsert_exchange_stores_example :
    (((lookup (bytes "x") [] ≡ none) × (stored ≡ imported request 7))
      ⊎ ((old : Exchange) × (lookup (bytes "x") [] ≡ some old) × (stored ≡ replaced request old)))
    × (after : List Exchange) × (load_exchanges sample_store
          (upsert_exchange sample_store (ok request) 7 empty).1
        ≡ ok after)
    × (lookup (bytes "y") after
        ≡ (if bytes "y" == bytes "x" then some stored else lookup (bytes "y") []))
upsert_exchange_stores_example =
    upsert_exchange_stores sample_store empty request 7 stored [] (bytes "y") test_empty test_upsert

test_begun : load_exchanges sample_store begun ≡ ok (stored ∷ [])
unfolding load_exchanges load assign bytes ◌==◌
test_begun = refl

abbrev changed : Exchange
changed = record stored { status_b = bytes "done" }

abbrev change : ExchangeRequest
change = record request { status_a = []; status_b = bytes "done" }

test_update : (update_exchange sample_store (ok change) begun).0 ≡ ok (content changed)
unfolding update_exchange save_updated save_exchanges load_exchanges load save assign found_first
    updated bytes ◌==◌
test_update = refl

begun_unique : HasUnique sample_store begun
unfolding load_exchanges load assign bytes ◌==◌ lookup
begun_unique = record {
  at = λ list e. let same : stored ∷ [] ≡ list = cc e in rw (sym same) (refl, tt);
}

serve-HasUnique_example : HasUnique sample_store (serve sample_store (upsert (ok request) 9) begun)
serve-HasUnique_example = serve-HasUnique sample_store (upsert (ok request) 9) begun begun_unique
