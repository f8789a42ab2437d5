-- ===== src/Server/Escrow/Slots.antt =====
-- addFlower: what is fixed once a party has deposited, and which parties the two slots hold.
use signature_escrow.Common.{
  ◌≡◌, ◌≢◌, ◌↔◌, ◌⊎◌, inl, inr, refl, true, false, Option, none, some, [], ◌∷◌, arith,
}
use signature_escrow.Text.{Text, ==_iff, is_empty}
use signature_escrow.Act.{ok}
use signature_escrow.Storage.{Error}
use signature_escrow.Server.Escrow.{
  Flower, Pollination, add_flower, add_new, occupied_by, Visit, visit, next, refuse, write,
}

-- The slot keeps its key, and keeps the flower unless its own depositor, or the depositor of a flower
-- that names none, replaced it. A signature that was deposited stays.
abbrev pub Keeps : Flower → Option Flower → Option Flower → Type 0
Keeps f none new = (new ≡ none) ⊎ (new ≡ some f)
Keeps f (some ex) none = ⊥
Keeps f (some ex) (some new) =
    (new ≡ ex)
    ⊎ ((new ≡ f)
        × (f.pub_key ≡ ex.pub_key)
        × ((ex.depositor ≡ []) ⊎ (f.depositor ≡ ex.depositor))
        × ((ex.sig ≡ []) ⊎ (f.sig ≡ ex.sig)))

pub is_empty_iff : (s : Text) → (is_empty s ≡ true) ↔ (s ≡ [])
is_empty_iff [] = ground arith
is_empty_iff (c ∷ s) = ground arith

visit_write :
    (ex f : Flower)
    → visit (some ex) f ≡ write
    → (f.pub_key ≡ ex.pub_key)
      × ((ex.depositor ≡ []) ⊎ (f.depositor ≡ ex.depositor))
      × ((ex.sig ≡ []) ⊎ (f.sig ≡ ex.sig))
visit_write ex f h = ground (
  arith,
  ==_iff ex.pub_key f.pub_key,
  ==_iff ex.depositor f.depositor,
  ==_iff ex.sig f.sig,
  is_empty_iff ex.depositor,
  is_empty_iff ex.sig,
)

pub visit_next : (ex f : Flower) → visit (some ex) f ≡ next → ex.pub_key ≢ f.pub_key
visit_next ex f h = ground (arith, ==_iff ex.pub_key f.pub_key)

-- Where a flower is put: in the place of one, or in a free slot.
pub data Placed (e1 e2 : Option Flower) (f : Flower) (q : Pollination) : Type 0 where
  first : visit e1 f ≡ write → q ≡ record { flower1 = some f; flower2 = e2 } → Placed e1 e2 f q
  second :
      visit e1 f ≡ next
      → visit e2 f ≡ write
      → q ≡ record { flower1 = e1; flower2 = some f }
      → Placed e1 e2 f q
  free1 :
      e1 ≡ none
      → visit e2 f ≡ next
      → occupied_by e2 f.depositor ≡ false
      → q ≡ record { flower1 = some f; flower2 = e2 }
      → Placed e1 e2 f q
  free2 :
      (ex : Flower)
      → e1 ≡ some ex
      → visit (some ex) f ≡ next
      → e2 ≡ none
      → occupied_by (some ex) f.depositor ≡ false
      → q ≡ record { flower1 = e1; flower2 = some f }
      → Placed e1 e2 f q

Visit-cases : (v : Visit) → (v ≡ next) ⊎ (v ≡ write) ⊎ ((e : Error) × (v ≡ refuse e))
Visit-cases next = inl refl
Visit-cases write = inr (inl refl)
Visit-cases (refuse e) = inr (inr (e, refl))

placed_free :
    (e1 e2 : Option Flower) (f : Flower) (q : Pollination)
    → visit e1 f ≡ next
    → visit e2 f ≡ next
    → add_new (record { flower1 = e1; flower2 = e2 }) f ≡ ok q
    → Placed e1 e2 f q
placed_free none e2 f q a b h = free1 refl b (ground arith) (ground arith)
placed_free (some ex) none f q a b h = free2 ex refl a refl (ground arith) (ground arith)
placed_free (some ex) (some g) f q a b h = absurd (ground arith)

pub add_flower-Placed :
    (p q : Pollination) (f : Flower) → add_flower p f ≡ ok q → Placed p.flower1 p.flower2 f q
unfolding add_flower
add_flower-Placed p q f h = elim (Visit-cases (visit p.flower1 f)) [
  | inr (inl a) ↦ first a (ground (arith, a))
  | inr (inr (e, a)) ↦ absurd (ground (arith, a))
  | inl a ↦ elim (Visit-cases (visit p.flower2 f)) [
    | inr (inl b) ↦ second a b (ground (arith, a, b))
    | inr (inr (e, b)) ↦ absurd (ground (arith, a, b))
    | inl b ↦ placed_free p.flower1 p.flower2 f q a b (ground (arith, a, b))
  ]
]

Keeps-self : (f : Flower) (o : Option Flower) → Keeps f o o
Keeps-self f none = inl refl
Keeps-self f (some ex) = inl refl

Keeps-written : (f : Flower) (o : Option Flower) → visit o f ≡ write → Keeps f o (some f)
Keeps-written f none h = inr refl
Keeps-written f (some ex) h = let (a, b, c) = visit_write ex f h in inr (refl, a, b, c)

placed-Keeps :
    (e1 e2 : Option Flower) (f : Flower) (q : Pollination)
    → Placed e1 e2 f q
    → Keeps f e1 q.flower1 × Keeps f e2 q.flower2
placed-Keeps e1 e2 f q (first a e) = rw e (Keeps-written f e1 a, Keeps-self f e2)
placed-Keeps e1 e2 f q (second a b e) = rw e (Keeps-self f e1, Keeps-written f e2 b)
placed-Keeps e1 e2 f q (free1 a b c e) = rw (e, a) (inr refl, Keeps-self f e2)
placed-Keeps e1 e2 f q (free2 ex a b c d e) = rw (e, c) (Keeps-self f e1, inr refl)

-- A deposit that addFlower accepts leaves each slot as it was or puts the deposited flower there:
-- into a free slot, or in the place of a flower with the same key that names no depositor or the
-- same one and that has no signature or the same one.
pub add_flower-Keeps :
    (p q : Pollination) (f : Flower)
    → add_flower p f ≡ ok q
    → Keeps f p.flower1 q.flower1 × Keeps f p.flower2 q.flower2
add_flower-Keeps p q f h = placed-Keeps p.flower1 p.flower2 f q (add_flower-Placed p q f h)

-- Both slots name their depositors, and hold two keys of two depositors.
abbrev pub IsSound : Option Flower → Option Flower → Type 0
IsSound none none = Unit
IsSound (some f) none = f.depositor ≢ []
IsSound none (some g) = g.depositor ≢ []
IsSound (some f) (some g) =
    (f.depositor ≢ []) × (g.depositor ≢ []) × (f.pub_key ≢ g.pub_key) × (f.depositor ≢ g.depositor)

placed-IsSound :
    (e1 e2 : Option Flower) (f : Flower) (q : Pollination)
    → f.depositor ≢ []
    → IsSound e1 e2
    → Placed e1 e2 f q
    → IsSound q.flower1 q.flower2
placed-IsSound (some a) none f q named h (first v e) = rw e named
placed-IsSound (some a) (some b) f q named h (first v e) =
    let (k, d, s) = visit_write a f v in rw e (ground arith)
placed-IsSound none e2 f q named h (first v e) = cc
placed-IsSound none (some b) f q named h (second v w e) = rw e named
placed-IsSound (some a) (some b) f q named h (second v w e) =
    let (k, d, s) = visit_write b f w in rw e (ground arith)
placed-IsSound e1 none f q named h (second v w e) = cc
placed-IsSound e1 none f q named h (free1 a b c e) = rw e named
placed-IsSound e1 (some g) f q named h (free1 a b c e) =
    let n = visit_next g f b in
    rw e (ground (arith, ==_iff g.depositor f.depositor, is_empty_iff g.depositor))
placed-IsSound e1 e2 f q named h (free2 ex a b c d e) =
    let n = visit_next ex f b in
    rw (e, a) (ground (arith, ==_iff ex.depositor f.depositor, is_empty_iff ex.depositor))

-- A deposit of a flower that names its depositor keeps the escrow sound: all flowers in it name
-- their depositors, and two of them have two keys and two depositors.
pub add_flower-IsSound :
    (p q : Pollination) (f : Flower)
    → f.depositor ≢ []
    → IsSound p.flower1 p.flower2
    → add_flower p f ≡ ok q
    → IsSound q.flower1 q.flower2
add_flower-IsSound p q f named h e =
    placed-IsSound p.flower1 p.flower2 f q named h (add_flower-Placed p q f e)
