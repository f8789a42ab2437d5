-- ===== src/Client/Keygen/Tests.antt =====
-- A key for "eth" under the index 1, which the request leaves out.
use signature_escrow.Common.{◌≡◌, refl, [], ◌∷◌}
use signature_escrow.Text.{Text, bytes, ◌==◌, to_lower, lower_byte, trim_prefix, strip}
use signature_escrow.Text.Hex.{hex_encode}
use signature_escrow.Act.{ok}
use signature_escrow.Storage.{save}
use signature_escrow.Storage.Memory.{Values}
use signature_escrow.Http.{content}
use signature_escrow.Client.Sample.{Encoded, sample_store, empty, account_codec, raw}
use signature_escrow.Client.Accounts.{AccountMeta}
use signature_escrow.Client.Util.{
  normalize_party_id, without_dashes, matches, validate_session_id, validate_network,
  validate_index, validate_eth_address,
}
use signature_escrow.Client.Keygen.{KeygenRequest, KeygenResponse, EcdsaRun, keygen_ecdsa, or_eth}
use signature_escrow.Client.Keygen.Listed.{IsStored, keygen_ecdsa_listed}

abbrev request : KeygenRequest
request = record {
  session_id = bytes "01234567-89ab-cdef-0123-456789abcdef";
  my_id = bytes "0x0123456789012345678901234567890123456789";
  another = bytes "0xabcdefabcdefabcdefabcdefabcdefabcdefabcd";
  network = [];
  index = 0;
}

abbrev run : EcdsaRun Encoded
run = record {
  network = ok tt;
  keygen = ok tt;
  presign_network = ok tt;
  presign = ok tt;
  address = ok (bytes "0xAb");
  public_key = ok (7 ∷ []);
  config = ok (raw []);
  presignature = ok (raw []);
}

abbrev response : KeygenResponse
response = record {
  public_key = bytes "07";
  address = bytes "0xAb";
  session_id = request.session_id;
  network = bytes "eth";
  index = 1;
}

generated : (keygen_ecdsa sample_store (ok request) run empty).0 ≡ ok (content response)
unfolding keygen_ecdsa bytes ◌==◌ to_lower lower_byte trim_prefix strip hex_encode
    normalize_party_id without_dashes matches validate_session_id validate_network validate_index
    validate_eth_address
generated = refl

calm : (k : Text) (m : AccountMeta) (t : Values Encoded) → (save sample_store k m t).0 ≡ ok tt
unfolding save
calm k m t = refl

keygen_ecdsa_listed_example :
    IsStored sample_store
      (or_eth request.network)
      response
      (keygen_ecdsa sample_store (ok request) run empty).1
keygen_ecdsa_listed_example =
    keygen_ecdsa_listed sample_store request run empty response calm generated
