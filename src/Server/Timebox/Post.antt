-- ===== src/Server/Timebox/Post.antt =====
-- timeboxPost: who may store a signature, and what a GET sees afterwards.
use signature_escrow.Common.{
  ℕ, ◌≡◌, ◌≢◌, ◌+◌, ◌∙◌, inl, inr, true, false, some, List, arith, length,
}
use signature_escrow.Text.{Text, bytes, is_empty}
use signature_escrow.Text.Hex.{hex_decode}
use signature_escrow.Act.{ok, Result-cases}
use signature_escrow.Storage.{Storage, Codec, get-save_ne, load-save_self, load_of_get}
use signature_escrow.Http.{Reply, content, status_code}
use signature_escrow.Validation.{Bytes, Signatures, validate}
use signature_escrow.Server.Pairing.{Pair, pair_key, load_pair}
use signature_escrow.Server.Timebox.{
  TimeboxEntry, timebox_delay, available_at, pair_contains, get_timebox, put_timebox, timebox_key,
  timebox_get, timebox_post, authorize_timebox_access,
}
use signature_escrow.Server.Timebox.Lock.{authorized_member}

pair_key-ne-timebox_key : (id : Text) (key : Bytes) → pair_key id ≢ timebox_key key
unfolding bytes
pair_key-ne-timebox_key id key e = ground (arith, e)

module _ {Blob : Type 0} (st : Storage Blob) ⦃pair_codec : Codec Blob Pair⦄
    ⦃ids_codec : Codec Blob (List Text)⦄ ⦃timebox_codec : Codec Blob TimeboxEntry⦄
    (sigs : Signatures) (e : TimeboxEntry) (caller : Text) (s : st.State) where
  abbrev pub after_post : st.State
  after_post = (timebox_post st sigs (ok e) caller s).1

  post_steps :
      {reply : Reply ℕ}
      → (timebox_post st sigs (ok e) caller s).0 ≡ ok reply
      → (p : Pair) × (authorize_timebox_access st caller e.pair_id s ≡ ok p)
        × (validate sigs e.alg e.pub_key e.hash e.sig ≡ ok true)
        × ((put_timebox st e s).0 ≡ ok tt)
        × (after_post ≡ (put_timebox st e s).1)
        × (reply ≡ content (available_at e))
  unfolding timebox_post
  post_steps h = elim (Result-cases (authorize_timebox_access st caller e.pair_id s)) [
    | inr (x, a) ↦ absurd (ground (arith, a))
    | inl (p, a) ↦ elim (Result-cases (validate sigs e.alg e.pub_key e.hash e.sig)) [
      | inr (x, v) ↦ absurd (ground (arith, a, v))
      | inl (false, v) ↦ absurd (ground (arith, a, v))
      | inl (true, v) ↦ (p, a, v, ground (arith, a, v), ground (arith, a, v), ground (arith, a, v))
    ]
  ]

  stored_entry :
      (put_timebox st e s).0 ≡ ok tt → get_timebox st e.pub_key (put_timebox st e s).1 ≡ ok (some e)
  unfolding get_timebox put_timebox
  stored_entry h = load-save_self st (timebox_key e.pub_key) e s h

  -- No pair is touched by the write of an entry.
  pairs_kept : (id : Text) → load_pair st id (put_timebox st e s).1 ≡ load_pair st id s
  unfolding load_pair put_timebox
  pairs_kept id = load_of_get st (pair_key id) _ s (
      get-save_ne st (timebox_key e.pub_key) (pair_key id) e s
        (pair_key-ne-timebox_key id e.pub_key))

  pub timebox_post_sound :
      {reply : Reply ℕ}
      → (timebox_post st sigs (ok e) caller s).0 ≡ ok reply
      → (p : Pair) × (load_pair st e.pair_id s ≡ ok (some p))
        × (pair_contains p caller ≡ true)
        × (validate sigs e.alg e.pub_key e.hash e.sig ≡ ok true)
        × (get_timebox st e.pub_key after_post ≡ ok (some e))
        × ((id : Text) → load_pair st id after_post ≡ load_pair st id s)
        × (reply ≡ content (e.created_at + timebox_delay))
  timebox_post_sound h =
      let (p, a, v, stored, end, answer) = post_steps h in
      let (there, member) = authorized_member st caller e.pair_id p s a in
      (p, there, member, v, rw end (stored_entry stored), rw end pairs_kept, answer)

  get_refused :
      (reader pub_hex hash_hex : Text) (key hash : Bytes) (now : ℕ) (t : st.State) (p : Pair)
      → get_timebox st key t ≡ ok (some e)
      → load_pair st e.pair_id t ≡ ok (some p)
      → pair_contains p reader ≡ false
      → is_empty pub_hex ≡ false
      → is_empty hash_hex ≡ false
      → hex_decode pub_hex ≡ ok key
      → hex_decode hash_hex ≡ ok hash
      → length hash ≡ 32
      → status_code (timebox_get st sigs pub_hex hash_hex reader now t).0 ≡ 403
  unfolding timebox_get authorize_timebox_access
  get_refused reader pub_hex hash_hex key hash now t p there pair other fp fh dp dh size =
      ground arith

  -- After a post under a key was answered 200, a caller that is no member of the pair that this
  -- post names is refused with 403 for that key, whichever pair an earlier post under the key had
  -- named. Conditions: the pair is stored, and the query is complete and decodes to the key and a
  -- hash of 32 bytes.
  pub timebox_repost_rebinds :
      {reply : Reply ℕ} (reader pub_hex hash_hex : Text) (hash : Bytes) (now : ℕ) (p : Pair)
      → (timebox_post st sigs (ok e) caller s).0 ≡ ok reply
      → load_pair st e.pair_id s ≡ ok (some p)
      → pair_contains p reader ≡ false
      → is_empty pub_hex ≡ false
      → is_empty hash_hex ≡ false
      → hex_decode pub_hex ≡ ok e.pub_key
      → hex_decode hash_hex ≡ ok hash
      → length hash ≡ 32
      → status_code (timebox_get st sigs pub_hex hash_hex reader now after_post).0 ≡ 403
  timebox_repost_rebinds reader pub_hex hash_hex hash now p h pair other fp fh dp dh size =
      let (q, there, mine, v, stored, kept, answer) = timebox_post_sound h in
      get_refused reader pub_hex hash_hex e.pub_key hash now after_post p stored
        (kept e.pair_id ∙ pair) other fp fh dp dh size
