-- ===== src/Storage/File/Paths.antt =====
-- storage/file/file.go: where the values of keys are kept, and that no two keys share a place.
use mathlib.Core.List.{append_assoc, append-nil}
use signature_escrow.Common.{
  Bool-cases, ℕ, zero, suc, subst, ◌≡◌, ◌≢◌, refl, sym, ap, ◌∙◌, inl, inr, Bool, true, false, not,
  ◌&&◌, List, [], ◌∷◌, ◌++◌, arith, nat_eq,
}
use signature_escrow.Text.{Text, bytes}
use signature_escrow.Text.Split.{split, join, contains, join-split, take_words}
use signature_escrow.Storage.Disk.{FilePath, Host}
use signature_escrow.Storage.Disk.Frame.{NoPrefix}
use signature_escrow.Storage.File.{
  EntryFormat, FileBackend, is_name, names_of, dir_of, base_of, expand_path, file_of,
}

-- `name[0] == '_'`
abbrev is_marked : Text → Bool
is_marked [] = false
is_marked (c ∷ _) = nat_eq c b'_'

-- Parts that are names of directories and not of values.
unfoldable pub IsPlain : List Text → Type 0
IsPlain [] = Unit {0}
IsPlain (w ∷ ws) = ((is_name w && not (is_marked w)) ≡ true) × IsPlain ws

-- Keys that the program uses: no `..`, and no part that is empty, a dot or marked.
unfoldable pub IsClean : Text → Type 0
IsClean k = (contains k (bytes "..") ≡ false) × IsPlain (split b'/' k)

-- The last name with its mark, under the directories.
abbrev pub place : FilePath → Text → FilePath
place d w = d ++ (b'_' ∷ w) ∷ []

pub NoPrefix-place :
    (d e : FilePath) (v w : Text)
    → IsPlain d
    → IsPlain e
    → place d v ≢ place e w
    → NoPrefix (place d v) (place e w)
unfolding IsPlain NoPrefix
NoPrefix-place [] [] v w h k ne = λ eq. ne (cc (eq))
NoPrefix-place [] (c ∷ e) v w h k ne = λ eq. ground arith
NoPrefix-place (c ∷ d) [] v w h k ne = λ eq. ground arith
NoPrefix-place (c ∷ d) (c' ∷ e) v w h k ne =
    λ eq. NoPrefix-place d e v w h.1 k.1 (λ same. ne (cc (eq, same)))

pub place-NoPrefix_dirs :
    (d e : FilePath) (v : Text) → IsPlain d → IsPlain e → NoPrefix (place d v) e
unfolding IsPlain NoPrefix
place-NoPrefix_dirs [] [] v h k = tt
place-NoPrefix_dirs [] (c ∷ e) v h k = λ eq. ground arith
place-NoPrefix_dirs (c ∷ d) [] v h k = tt
place-NoPrefix_dirs (c ∷ d) (c' ∷ e) v h k = λ eq. place-NoPrefix_dirs d e v h.1 k.1

pub NoPrefix-append : (r p q : FilePath) → NoPrefix p q → NoPrefix (r ++ p) (r ++ q)
unfolding NoPrefix
NoPrefix-append [] p q h = h
NoPrefix-append (c ∷ r) p q h = λ _. NoPrefix-append r p q h

pub NoPrefix-ne : (p q : FilePath) → NoPrefix p q → p ≢ q
unfolding NoPrefix
NoPrefix-ne [] q h e = absurd h
NoPrefix-ne (c ∷ p) [] h e = cc
NoPrefix-ne (c ∷ p) (d ∷ q) h e = NoPrefix-ne p q (h (ground arith)) (ground arith)

-- The directories of a path and its last name.
abbrev dirs : List Text → FilePath
dirs [] = []
dirs (_ ∷ []) = []
dirs (w ∷ v ∷ ws) = w ∷ dirs (v ∷ ws)

abbrev last : List Text → Text
last [] = []
last (w ∷ []) = w
last (w ∷ v ∷ ws) = last (v ∷ ws)

pub key_dirs : Text → FilePath
key_dirs k = dirs (split b'/' k)

pub key_name : Text → Text
key_name k = last (split b'/' k)

pub dirs-IsPlain : (ws : List Text) → IsPlain ws → IsPlain (dirs ws)
unfolding IsPlain
dirs-IsPlain [] h = tt
dirs-IsPlain (w ∷ []) h = tt
dirs-IsPlain (w ∷ v ∷ ws) h = (h.0, dirs-IsPlain (v ∷ ws) h.1)

pub names_of-IsPlain : (ws : List Text) → IsPlain ws → names_of ws ≡ ws
unfolding names_of IsPlain
names_of-IsPlain [] h = refl
names_of-IsPlain (w ∷ ws) h = ground (arith, names_of-IsPlain ws h.1)

pub key_dirs-IsPlain : (k : Text) → IsClean k → IsPlain (key_dirs k)
unfolding IsClean key_dirs
key_dirs-IsPlain k h = dirs-IsPlain (split b'/' k) h.1

dir_of-dirs : (w : Text) (ws : List Text) → dir_of (w ∷ ws) ≡ dirs (w ∷ ws)
unfolding dir_of
dir_of-dirs w [] = refl
dir_of-dirs w (v ∷ ws) = ap (λ p. w ∷ p) (dir_of-dirs v ws)

base_of-last : (w : Text) (ws : List Text) → base_of (w ∷ ws) ≡ last (w ∷ ws)
unfolding base_of
base_of-last w [] = refl
base_of-last w (v ∷ ws) = base_of-last v ws

dir_of-append :
    (r : FilePath) (w : Text) (ws : List Text) → dir_of (r ++ w ∷ ws) ≡ r ++ dir_of (w ∷ ws)
unfolding dir_of
dir_of-append [] w ws = refl
dir_of-append (c ∷ []) w ws = refl
dir_of-append (c ∷ d ∷ r) w ws = ap (λ p. c ∷ p) (dir_of-append (d ∷ r) w ws)

base_of-append :
    (r : FilePath) (w : Text) (ws : List Text) → base_of (r ++ w ∷ ws) ≡ base_of (w ∷ ws)
unfolding base_of
base_of-append [] w ws = refl
base_of-append (c ∷ []) w ws = refl
base_of-append (c ∷ d ∷ r) w ws = base_of-append (d ∷ r) w ws

pub split-cons : (k : Text) → (w : Text) × (ws : List Text) × (split b'/' k ≡ w ∷ ws)
unfolding split
split-cons [] = ([], [], refl)
split-cons (c ∷ k) = elim (Bool-cases (nat_eq c b'/')) [
  | inl e ↦ ([], split b'/' k, ground (arith, e))
  | inr e ↦ let (w, ws, e') = split-cons k in (c ∷ w, ws, ground (arith, e, e'))
]

-- dirs and the last name make up the parts again, and so the key.
parts : (w : Text) (ws : List Text) → dirs (w ∷ ws) ++ last (w ∷ ws) ∷ [] ≡ w ∷ ws
parts w [] = refl
parts w (v ∷ ws) = ap (λ p. w ∷ p) (parts v ws)

pub key-join : (k : Text) → join b'/' (key_dirs k ++ key_name k ∷ []) ≡ k
unfolding key_dirs key_name
key-join k =
    let (w, ws, e) = split-cons k in
    ap (λ x. join b'/' (dirs x ++ last x ∷ [])) e
    ∙ ap (join b'/') (parts w ws)
    ∙ ap (join b'/') (sym e)
    ∙ join-split b'/' k

pub join-suffix :
    (ds : FilePath) (w r : Text) → join b'/' (ds ++ (w ++ r) ∷ []) ≡ join b'/' (ds ++ w ∷ []) ++ r
unfolding join
join-suffix [] w r = refl
join-suffix (d ∷ []) w r = sym (append_assoc d (b'/' ∷ w) r)
join-suffix (d ∷ d' ∷ ds) w r =
    ap (λ x. d ++ b'/' ∷ x) (join-suffix (d' ∷ ds) w r)
    ∙ sym (append_assoc d (b'/' ∷ join b'/' (d' ∷ ds ++ w ∷ [])) r)

module _ (host : Host) (json : EntryFormat) (b : FileBackend) where
  pub expand_path_lem :
      (k : Text) → IsClean k → expand_path host json b k ≡ (b.path ++ key_dirs k, b'_' ∷ key_name k)
  unfolding expand_path IsClean key_dirs key_name dir_of bytes split
  expand_path_lem k h =
      let (w, ws, e) = split-cons k in
      cc (
        e,
        names_of-IsPlain (split b'/' k) h.1,
        dir_of-append b.path w ws,
        base_of-append b.path w ws,
        dir_of-dirs w ws,
        base_of-last w ws,
      )

  pub file_of_lem :
      (k : Text) → IsClean k → file_of host json b k ≡ b.path ++ place (key_dirs k) (key_name k)
  file_of_lem k h =
      cc (expand_path_lem k h, append_assoc b.path (key_dirs k) ((b'_' ∷ key_name k) ∷ []))

abbrev drop_mark : Text → Text
drop_mark [] = []
drop_mark (_ ∷ w) = w

unmark : List Text → List Text
unmark [] = []
unmark (w ∷ []) = drop_mark w ∷ []
unmark (w ∷ v ∷ ws) = w ∷ unmark (v ∷ ws)

unmark-place : (d : FilePath) (w : Text) → unmark (place d w) ≡ d ++ w ∷ []
unfolding unmark
unmark-place [] w = refl
unmark-place (c ∷ []) w = refl
unmark-place (c ∷ c' ∷ d) w = ap (λ p. c ∷ p) (unmark-place (c' ∷ d) w)

-- Two keys whose places are one, but for what was put behind the second.
pub place-injective :
    (j k r : Text)
    → place (key_dirs j) (key_name j) ≡ place (key_dirs k) (key_name k ++ r)
    → j ≡ k ++ r
place-injective j k r e =
    sym (key-join j)
    ∙ ap (join b'/') (
        sym (unmark-place (key_dirs j) (key_name j))
        ∙ ap unmark e
        ∙ unmark-place (key_dirs k) (key_name k ++ r))
    ∙ join-suffix (key_dirs k) (key_name k) r
    ∙ ap (λ x. x ++ r) (key-join k)

-- The files of clean keys: none lies at or under another, nor where another's directories are.
pub take_words-IsPlain : (n : ℕ) (ws : List Text) → IsPlain ws → IsPlain (take_words n ws)
unfolding IsPlain take_words
take_words-IsPlain zero ws h = tt
take_words-IsPlain (suc n) [] h = tt
take_words-IsPlain (suc n) (w ∷ ws) h = (h.0, take_words-IsPlain n ws h.1)

module _ (host : Host) (json : EntryFormat) (b : FileBackend) (j k : Text) (hj : IsClean j)
    (hk : IsClean k) where
  pub file-NoPrefix_dirs : NoPrefix (file_of host json b j) (expand_path host json b k).0
  file-NoPrefix_dirs =
      let far : NoPrefix (b.path ++ place (key_dirs j) (key_name j)) (b.path ++ key_dirs k) =
        NoPrefix-append b.path _ _ (
          place-NoPrefix_dirs (key_dirs j) (key_dirs k) (key_name j) (key_dirs-IsPlain j hj)
            (key_dirs-IsPlain k hk)) in
      subst (λ p. NoPrefix p (expand_path host json b k).0) (sym (file_of_lem host json b j hj))
        (subst (λ x. NoPrefix (b.path ++ place (key_dirs j) (key_name j)) x.0)
          (sym (expand_path_lem host json b k hk)) far)

  pub temp-NoPrefix_file :
      (r : Text)
      → j ≢ k ++ r
      → NoPrefix
          ((expand_path host json b k).0 ++ ((expand_path host json b k).1 ++ r) ∷ [])
          (file_of host json b j)
  temp-NoPrefix_file r ne =
      let far : NoPrefix (b.path ++ place (key_dirs k) (key_name k ++ r))
          (b.path ++ place (key_dirs j) (key_name j)) =
        NoPrefix-append b.path _ _ (
          NoPrefix-place (key_dirs k) (key_dirs j) (key_name k ++ r) (key_name j)
            (key_dirs-IsPlain k hk) (key_dirs-IsPlain j hj)
            (λ same. ne (place-injective j k r (sym same)))) in
      subst
        (λ p.
          NoPrefix ((expand_path host json b k).0 ++ ((expand_path host json b k).1 ++ r) ∷ []) p)
        (sym (file_of_lem host json b j hj))
        (subst (λ x. NoPrefix x (b.path ++ place (key_dirs j) (key_name j)))
          (cc (
            expand_path_lem host json b k hk,
            append_assoc b.path (key_dirs k) ((b'_' ∷ key_name k ++ r) ∷ []),
          ))
          far)

  pub file-ne_parents :
      (n : ℕ) → file_of host json b j ≢ b.path ++ names_of (take_words (suc n) (split b'/' k))
  unfolding IsClean
  file-ne_parents n same =
      let plain : IsPlain (take_words (suc n) (split b'/' k)) = take_words-IsPlain (suc n) _ hk.1 in
      NoPrefix-ne _ _
        (NoPrefix-append b.path _ _
          (place-NoPrefix_dirs (key_dirs j) _ (key_name j) (key_dirs-IsPlain j hj) plain))
        (sym (file_of_lem host json b j hj)
          ∙ same
          ∙ ap (λ p. b.path ++ p) (names_of-IsPlain _ plain))

  pub file-NoPrefix_file : j ≢ k → NoPrefix (file_of host json b k) (file_of host json b j)
  file-NoPrefix_file ne =
      subst (λ x. NoPrefix ((expand_path host json b k).0 ++ x ∷ []) (file_of host json b j))
        (append-nil (expand_path host json b k).1)
        (temp-NoPrefix_file [] (λ e. ne (e ∙ append-nil k)))

pub not-IsClean_empty : ¬ (IsClean [])
unfolding IsClean IsPlain split
not-IsClean_empty (_, h) = cc (h.0)
