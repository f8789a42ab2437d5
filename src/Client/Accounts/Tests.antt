-- ===== src/Client/Accounts/Tests.antt =====
-- The accounts "eth" 1 and "btc" 3.
use signature_escrow.Common.{◌≡◌, ◌↔◌, refl, some, List, []}
use signature_escrow.Text.{Text, bytes, ◌==◌, to_lower, lower_byte, equal_fold}
use signature_escrow.Text.Decimal.{print_decimal}
use signature_escrow.Act.{ok}
use signature_escrow.Storage.{load}
use signature_escrow.Storage.Memory.{Values, assign}
use signature_escrow.Http.{content}
use signature_escrow.Client.Sample.{Encoded, sample_store, empty, account_codec, account}
use signature_escrow.Client.Accounts.{
  AccountMeta, account_base, account_keys, meta_key, delete_account, list_accounts, networks_of,
}
use signature_escrow.Client.Accounts.Listed.{Has, list_accounts_iff, StoredFrom}
use signature_escrow.Client.Accounts.Delete.{
  AllGone, NoneOf, delete_account_removes, delete_account_unconfirmed, the_request,
}

abbrev first : AccountMeta
first = record {
  network = bytes "eth";
  index = 1;
  address = bytes "0xAb";
  public_key = [];
  pair_my_id = bytes "0xM";
  pair_other = [];
  session_id = [];
}

abbrev two_accounts : Values Encoded
two_accounts =
    assign (meta_key (bytes "eth") 1) (some (account first))
      (assign (meta_key (bytes "btc") 3) (some (account first)) empty)

list_accounts_iff_example :
    (list : List AccountMeta) × (list_accounts sample_store (bytes "btc") two_accounts
      ≡ (ok (content list), two_accounts))
    × (Has first list ↔ (
        (net : Text) × Has net (networks_of (bytes "btc"))
        × StoredFrom sample_store first two_accounts net 100 1))
list_accounts_iff_example = list_accounts_iff sample_store first two_accounts (bytes "btc")

calm : (k : Text) (t : Values Encoded) → (sample_store.delete k t).0 ≡ ok tt
calm k t = refl

test_delete :
    (delete_account sample_store
      (ok (the_request sample_store (bytes "eth") 1 (bytes "0xaB")))
      two_accounts).0
    ≡ ok (content (bytes "0xAb"))
unfolding delete_account bytes ◌==◌ to_lower lower_byte equal_fold account_base assign print_decimal
test_delete = refl

delete_account_removes_example :
    AllGone sample_store
      (account_keys (account_base (bytes "eth") 1))
      (delete_account sample_store
        (ok (the_request sample_store (bytes "eth") 1 (bytes "0xaB")))
        two_accounts).1
    × ((j : Text)
        → NoneOf j (account_keys (account_base (bytes "eth") 1))
        → sample_store.get j
            (delete_account sample_store
              (ok (the_request sample_store (bytes "eth") 1 (bytes "0xaB")))
              two_accounts).1
          ≡ sample_store.get j two_accounts)
delete_account_removes_example =
    delete_account_removes sample_store (bytes "eth") 1 (bytes "0xaB") (bytes "0xAb") two_accounts
      calm test_delete

stored_first : load sample_store (meta_key (bytes "eth") 1) two_accounts ≡ ok (some first)
unfolding load bytes ◌==◌ account_base assign print_decimal
stored_first = refl

delete_account_unconfirmed_example :
    delete_account sample_store (ok (the_request sample_store (bytes "eth") 1 [])) two_accounts
    ≡ delete_account sample_store
        (ok (the_request sample_store (bytes "eth") 1 (bytes "0xAb")))
        two_accounts
delete_account_unconfirmed_example =
    delete_account_unconfirmed sample_store (bytes "eth") 1 first two_accounts stored_first
