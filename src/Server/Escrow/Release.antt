-- ===== src/Server/Escrow/Release.antt =====
-- When a signature is released, and to whom.
use signature_escrow.Common.{
  ◌≡◌, ◌≢◌, ◌⊎◌, inl, inr, sym, ap, ◌∙◌, true, Option, Option-cases, none, some, arith,
}
use signature_escrow.Text.{Text, ==_iff}
use signature_escrow.Act.{ok, Result-cases}
use signature_escrow.Storage.{Storage, Codec, load-save_self}
use signature_escrow.Http.{content}
use signature_escrow.Validation.{Bytes, Signatures, validate}
use signature_escrow.Server.Escrow.{
  Flower, Pollination, add_flower, pollinate, their_sig, complete, get_pollination, put_pollination,
  escrow,
}
use signature_escrow.Server.Escrow.Slots.{
  Placed, first, second, free1, free2, add_flower-Placed, visit_next,
}

-- Both slots are taken, by these two flowers in one order or the other.
abbrev pub Holds : Pollination → Flower → Flower → Type 0
Holds p f g =
    (p ≡ record { flower1 = some f; flower2 = some g })
    ⊎ ((p ≡ record { flower1 = some g; flower2 = some f }) × (g.pub_key ≢ f.pub_key))

module _ (sigs : Signatures) where
  -- The signature that one flower brings is good for the hash that the other asks for.
  abbrev pub Serves : Flower → Flower → Type 0
  Serves f g = validate sigs f.alg f.pub_key f.hash g.sig ≡ ok true

  pollinate-Serves :
      (f g : Flower)
      → pollinate sigs (record { flower1 = some f; flower2 = some g }) ≡ ok true
      → Serves f g × Serves g f
  unfolding pollinate
  pollinate-Serves f g h = elim (Result-cases (validate sigs f.alg f.pub_key f.hash g.sig)) [
    | inr (x, e) ↦ absurd (ground (arith, e))
    | inl (b, e) ↦ elim (Result-cases (validate sigs g.alg g.pub_key g.hash f.sig)) [
      | inr (x, k) ↦ absurd (ground (arith, e, k))
      | inl (c, k) ↦ (ground (arith, e, k), ground (arith, e, k))
    ]
  ]

  pub pollinate_of_Serves :
      (p : Pollination) (f g : Flower)
      → Holds p f g
      → Serves f g
      → Serves g f
      → pollinate sigs p ≡ ok true
  unfolding pollinate
  pollinate_of_Serves p f g (inl e) a b = ground (arith, e)
  pollinate_of_Serves p f g (inr (e, k)) a b = ground (arith, e)

  pub pollinated_full :
      (p : Pollination)
      → pollinate sigs p ≡ ok true
      → (f : Flower) × (g : Flower) × (p.flower1 ≡ some f)
        × (p.flower2 ≡ some g)
        × Serves f g
        × Serves g f
  unfolding pollinate
  pollinated_full p h = elim (Option-cases p.flower1) [
    | inl e ↦ absurd (ground (arith, e))
    | inr (f, e) ↦ elim (Option-cases p.flower2) [
      | inl k ↦ absurd (ground (arith, e, k))
      | inr (g, k) ↦ let (a, b) = pollinate-Serves f g (ground (arith, e, k)) in (f, g, e, k, a, b)
    ]
  ]

placed-Holds :
    (e1 e2 : Option Flower) (f a b : Flower) (q : Pollination)
    → Placed e1 e2 f q
    → q.flower1 ≡ some a
    → q.flower2 ≡ some b
    → (g : Flower) × Holds q f g
placed-Holds e1 e2 f a b q (first v e) h k = (b, inl (ground arith))
placed-Holds e1 e2 f a b q (second v w e) h k =
    (a, inr (ground arith, visit_next a f (ground arith)))
placed-Holds e1 e2 f a b q (free1 x y z e) h k = (b, inl (ground arith))
placed-Holds e1 e2 f a b q (free2 ex x y z w e) h k =
    (a, inr (ground arith, visit_next a f (ground arith)))

Holds-answer : (q : Pollination) (f g : Flower) → Holds q f g → their_sig q f.pub_key ≡ g.sig
Holds-answer q f g (inl e) = ground (arith, ==_iff f.pub_key f.pub_key)
Holds-answer q f g (inr (e, k)) =
    ground (arith, ==_iff g.pub_key f.pub_key, ==_iff f.pub_key f.pub_key)

Holds-Serves :
    (sigs : Signatures) (q : Pollination) (f g : Flower)
    → Holds q f g
    → pollinate sigs q ≡ ok true
    → Serves sigs f g × Serves sigs g f
Holds-Serves sigs q f g (inl e) h = pollinate-Serves sigs f g (ap (pollinate sigs) (sym e) ∙ h)
Holds-Serves sigs q f g (inr (e, k)) h =
    let (a, b) = pollinate-Serves sigs g f (ap (pollinate sigs) (sym e) ∙ h) in (b, a)

module _ {Blob : Type 0} (st : Storage Blob) ⦃c : Codec Blob Pollination⦄ (sigs : Signatures)
    (parsed : Flower) (caller : Text) (s : st.State) where
  -- The flower that the request deposits.
  abbrev pub deposited : Flower
  deposited = record parsed { depositor = caller }

  abbrev pub after_deposit : st.State
  after_deposit = (escrow st sigs (ok parsed) caller s).1

  escrow_steps :
      (sig : Bytes)
      → (escrow st sigs (ok parsed) caller s).0 ≡ ok (content (complete sig))
      → (old : Pollination) × (q : Pollination) × (get_pollination st parsed.id s ≡ ok (some old))
        × (add_flower old deposited ≡ ok q)
        × (pollinate sigs q ≡ ok true)
        × (sig ≡ their_sig q parsed.pub_key)
        × ((put_pollination st parsed.id q s).0 ≡ ok tt)
        × (after_deposit ≡ (put_pollination st parsed.id q s).1)
  unfolding escrow
  escrow_steps sig h = elim (Result-cases (get_pollination st parsed.id s)) [
    | inr (x, e) ↦ absurd (ground (arith, e))
    | inl (none, e) ↦ absurd (ground (arith, e))
    | inl (some old, e) ↦ elim (Result-cases (add_flower old deposited)) [
      | inr (x, a) ↦ absurd (ground (arith, e, a))
      | inl (q, a) ↦ (
        old,
        q,
        e,
        a,
        ground (arith, e, a),
        ground (arith, e, a),
        ground (arith, e, a),
        ground (arith, e, a),
      )
    ]
  ]

  get-put_pollination :
      (q : Pollination)
      → (put_pollination st parsed.id q s).0 ≡ ok tt
      → get_pollination st parsed.id (put_pollination st parsed.id q s).1 ≡ ok (some q)
  unfolding get_pollination put_pollination
  get-put_pollination q h = load-save_self st parsed.id q s h

  -- A deposit that is answered complete stored an escrow that holds the deposited flower and
  -- another one; the answer is the other flower's signature, and each flower's signature verifies
  -- under the key and the hash of the other flower.
  pub escrow_releases :
      (sig : Bytes)
      → (escrow st sigs (ok parsed) caller s).0 ≡ ok (content (complete sig))
      → (q : Pollination) × (g : Flower) × (get_pollination st parsed.id after_deposit
          ≡ ok (some q))
        × Holds q deposited g
        × (sig ≡ g.sig)
        × Serves sigs deposited g
        × Serves sigs g deposited
  escrow_releases sig h =
      let (old, q, there, placed, valid, answer, stored, end) = escrow_steps sig h in
      let (a, b, full1, full2, x, y) = pollinated_full sigs q valid in
      let (g, held) =
        placed-Holds old.flower1 old.flower2 deposited a b q
          (add_flower-Placed old q deposited placed) full1 full2 in
      let (mine, theirs) = Holds-Serves sigs q deposited g held valid in
      (
        q,
        g,
        rw end (get-put_pollination q stored),
        held,
        answer ∙ Holds-answer q deposited g held,
        mine,
        theirs,
      )

  -- What is stored after such an answer is what addFlower made of the stored escrow.
  pub escrow_stored :
      (sig : Bytes) (old q : Pollination)
      → (escrow st sigs (ok parsed) caller s).0 ≡ ok (content (complete sig))
      → get_pollination st parsed.id s ≡ ok (some old)
      → get_pollination st parsed.id after_deposit ≡ ok (some q)
      → (add_flower old deposited ≡ ok q) × (pollinate sigs q ≡ ok true)
  escrow_stored sig old q h before after =
      let (o, r, there, placed, valid, answer, stored, end) = escrow_steps sig h in
      let same_old : some old ≡ some o = cc (before, there) in
      let same : some r ≡ some q = cc (after, end, get-put_pollination r stored) in
      (cc (same_old, same, placed), cc (same, valid))
