-- ===== src/Storage/File/Put.antt =====
-- storage/file/file.go: what `Put` leaves under its own key, and under the others.
use signature_escrow.Common.{
  ◌≡◌, refl, sym, subst, ◌⊎◌, inl, inr, Option, none, some, Option-cases, List, [], ◌∷◌, ◌++◌,
  arith,
}
use signature_escrow.Text.{Text}
use signature_escrow.Act.{
  Result, ok, err, Act, pure, throw, ◌>>=◌, ◌>>◌, or_fail, attempt, Result-cases,
}
use signature_escrow.Storage.{Error}
use signature_escrow.Storage.Disk.{
  FilePath, Errno, not_exist, not_directory, is_directory, not_empty, refused, exist, Node, file,
  directory, mkdir_all, remove_at, write_at, create_at, rename_at, mkdir, create, chmod, write,
  rename, remove, stat, Host, change, look,
}
use signature_escrow.Storage.Disk.Frame.{
  sees, content, NoPrefix, write_at-sees_ne, write_at-sees_self, remove_at-sees_ne, mkdir_all-sees,
}
use signature_escrow.Storage.Disk.Rename.{create_at-sees_ne, rename_at-sees_ne, rename_at-sees_self}
use signature_escrow.Storage.File.{
  EntryFormat, Entry, FileBackend, Context, stop, validate_path, expand_path, file_of, create_temp,
  tried, encoded, discard, written, put_internal, put, describe,
}
use signature_escrow.Storage.File.Keeps.{
  All, Leaves, Leaves-bind, Keeps, KeepsOnError, Keeps-bind, Keeps-bind_of, KeepsOnError-bind_of,
  Keeps-KeepsOnError, Keeps-attempt, Keeps-or_fail, KeepsOnError-or_fail, Keeps-look, Keeps-change,
  Keeps-stop, Keeps-validate_path, Keeps-throw, Keeps-pure, KeepsOnError-change,
}

module _ (host : Host) (json : EntryFormat) (b : FileBackend) (q : FilePath) where
  Keeps-tried :
      (p : FilePath) (again : Act Error Node FilePath)
      → Keeps q again
      → (answer : Result Errno (Unit {0})) → Keeps q (tried host json b p again answer)
  Keeps-tried p again h (ok _) = Keeps-pure q p
  Keeps-tried p again h (err exist) = h
  Keeps-tried p again h (err not_exist) = Keeps-throw FilePath q _
  Keeps-tried p again h (err not_directory) = Keeps-throw FilePath q _
  Keeps-tried p again h (err is_directory) = Keeps-throw FilePath q _
  Keeps-tried p again h (err not_empty) = Keeps-throw FilePath q _
  Keeps-tried p again h (err (refused _)) = Keeps-throw FilePath q _

  create_temp-Keeps :
      (path : FilePath) (key : Text) (rs : List Text)
      → All (λ r. NoPrefix (path ++ (key ++ r) ∷ []) q) rs
      → Keeps q (create_temp host json b path key rs)
  unfolding create_temp All
  create_temp-Keeps path key [] far = Keeps-throw FilePath q (describe exist)
  create_temp-Keeps path key (r ∷ rs) far =
      Keeps-bind q
        (attempt
          (change host create (path ++ (key ++ r) ∷ []) (create_at (path ++ (key ++ r) ∷ []))))
        (tried host json b (path ++ (key ++ r) ∷ []) (create_temp host json b path key rs))
        (Keeps-attempt Error q _
          (Keeps-change host q create _ _ (λ n m. create_at-sees_ne _ q n m far.0)))
        (Keeps-tried (path ++ (key ++ r) ∷ []) _ (create_temp-Keeps path key rs far.1))

  Keeps-written :
      (o : Option Text) (p : FilePath) (t : Text)
      → NoPrefix p q
      → Keeps q (written host json b o p t)
  unfolding Keeps
  Keeps-written none p t far s = elim (Result-cases (write_at p t s)) [
    | inl (m, e) ↦ ground (arith, e, write_at-sees_ne p q t s m far e)
    | inr (x, e) ↦ ground (arith, e)
  ]
  Keeps-written (some r) p t far s = elim (Result-cases (write_at p (host.partial t) s)) [
    | inl (m, e) ↦ ground (arith, e, write_at-sees_ne p q (host.partial t) s m far e)
    | inr (x, e) ↦ ground (arith, e)
  ]

  Keeps-discard :
      (p : FilePath) → NoPrefix p q → (r : Result Errno Node) → Keeps q (discard host json b p r)
  Keeps-discard p far (ok (file [])) =
      Keeps-bind q (attempt (change host remove p (remove_at p))) (λ _. pure tt)
        (Keeps-attempt Error q _
          (Keeps-change host q remove p _ (λ n m. remove_at-sees_ne p q n m far)))
        (λ _. Keeps-pure q tt)
  Keeps-discard p far (ok (file (_ ∷ _))) = Keeps-pure q tt
  Keeps-discard p far (ok (directory _)) = Keeps-pure q tt
  Keeps-discard p far (err _) = Keeps-pure q tt

  -- After a failed write.
  Keeps-unwritten :
      (temp full : FilePath) (e : Errno)
      → NoPrefix temp q
      → Keeps q (encoded host json b temp full (err e))
  Keeps-unwritten temp full e far =
      Keeps-bind q (attempt (look host stat temp))
        (λ r. discard host json b temp r >> throw (describe e))
        (Keeps-attempt Error q _ (Keeps-look host q stat temp))
        (λ r.
          Keeps-bind q (discard host json b temp r) (λ _. throw (describe e))
            (Keeps-discard temp far r) (λ _. Keeps-throw (Unit {0}) q _))

  Keeps-encoded :
      (temp full : FilePath) (r : Result Errno (Unit {0}))
      → NoPrefix temp q
      → NoPrefix full q
      → Keeps q (encoded host json b temp full r)
  Keeps-encoded temp full (ok _) far far' =
      Keeps-or_fail q _ describe
        (Keeps-change host q rename temp _ (λ n m. rename_at-sees_ne temp full q n m far far'))
  Keeps-encoded temp full (err e) far far' = Keeps-unwritten temp full e far

  KeepsOnError-encoded :
      (temp full : FilePath) (r : Result Errno (Unit {0}))
      → NoPrefix temp q
      → KeepsOnError q (encoded host json b temp full r)
  KeepsOnError-encoded temp full (ok _) far =
      KeepsOnError-or_fail q _ describe (KeepsOnError-change host q rename temp _)
  KeepsOnError-encoded temp full (err e) far =
      Keeps-KeepsOnError q _ (Keeps-unwritten temp full e far)

  tried-answer :
      (p0 : FilePath) (again : Act Error Node FilePath) (p : FilePath) (r : Result Errno (Unit {0}))
      (s : Node)
      → (tried host json b p0 again r s).0 ≡ ok p
      → (p ≡ p0) ⊎ ((again s).0 ≡ ok p)
  tried-answer p0 again p (ok _) s e = inl (cc e)
  tried-answer p0 again p (err exist) s e = inr e
  tried-answer p0 again p (err not_exist) s e = cc
  tried-answer p0 again p (err not_directory) s e = cc
  tried-answer p0 again p (err is_directory) s e = cc
  tried-answer p0 again p (err not_empty) s e = cc
  tried-answer p0 again p (err (refused _)) s e = cc

  -- What holds of every name that is tried holds of the name that is found.
  create_temp-answer :
      (R : FilePath → Type 0) (path : FilePath) (key : Text) (rs : List Text) (p : FilePath)
      (s : Node)
      → All (λ r. R (path ++ (key ++ r) ∷ [])) rs
      → (create_temp host json b path key rs s).0 ≡ ok p
      → R p
  unfolding create_temp All
  create_temp-answer R path key [] p s h e = cc
  create_temp-answer R path key (r ∷ rs) p s h e =
      elim (tried-answer (path ++ (key ++ r) ∷ []) (create_temp host json b path key rs) p _ _ e) [
        | inl found ↦ subst R (sym found) h.0
        | inr later ↦ create_temp-answer R path key rs p _ h.1 later
      ]

-- `Put` up to its last step, for a property that goes through a sequence of calls.
module _ (host : Host) (json : EntryFormat) (b : FileBackend) (q : FilePath) (ctx : Context)
    (e : Entry) where
  abbrev pub target : FilePath
  target = let (path, key) = expand_path host json b e.key in path ++ key ∷ []

  abbrev pub temp_of : Text → FilePath
  temp_of r = let (path, key) = expand_path host json b e.key in path ++ (key ++ r) ∷ []

  module _ (P : Act Error Node (Unit {0}) → Type 0)
      (bind_of : (A : Type 0) (m : Act Error Node A) (f : A → Act Error Node (Unit {0}))
        → Keeps q m
        → ((a : A) (s : Node) → (m s).0 ≡ ok a → P (f a))
        → P (m >>= f))
      (path_far : NoPrefix q (expand_path host json b e.key).0)
      (temp_far : All (λ r. NoPrefix (temp_of r) q) host.suffixes)
      (last : (temp : FilePath) (r : Result Errno (Unit {0}))
        → NoPrefix temp q
        → P (encoded host json b temp target r)) where
    put-steps : P (put host json b ctx e)
    unfolding put put_internal
    put-steps = bind_of _ _ _ (Keeps-stop q ctx.acquire) (λ _ _ _.
        bind_of _ _ _ (Keeps-validate_path q e.key) (λ _ _ _.
          bind_of _ _ _ (Keeps-stop q ctx.done) (λ _ _ _.
            bind_of _ _ _
              (Keeps-or_fail q _ describe
                (Keeps-change host q mkdir _ _ (λ n m. mkdir_all-sees _ q n m path_far)))
              (λ _ _ _.
                bind_of _ _ _ (create_temp-Keeps host json b q _ _ _ temp_far) (λ temp s found.
                  let far : NoPrefix temp q =
                    create_temp-answer host json b q (λ p. NoPrefix p q) _ _ _ temp s temp_far
                      found in
                  bind_of _ _ _ (Keeps-or_fail q _ describe (Keeps-look host q chmod temp))
                    (λ _ _ _.
                      bind_of _ _ _
                        (Keeps-attempt Error q _ (Keeps-written host json b q _ temp _ far))
                        (λ r _ _. last temp r far)))))))

  pub put-Keeps :
      NoPrefix q (expand_path host json b e.key).0
      → All (λ r. NoPrefix (temp_of r) q) host.suffixes
      → NoPrefix target q
      → Keeps q (put host json b ctx e)
  put-Keeps path_far temp_far far =
      put-steps (λ m. Keeps q m) (λ A m f. Keeps-bind_of q m f) path_far temp_far
        (λ temp r temp_far'. Keeps-encoded host json b q temp target r temp_far' far)

  pub put-KeepsOnError :
      NoPrefix q (expand_path host json b e.key).0
      → All (λ r. NoPrefix (temp_of r) q) host.suffixes
      → KeepsOnError q (put host json b ctx e)
  put-KeepsOnError path_far temp_far =
      put-steps (λ m. KeepsOnError q m) (λ A m f. KeepsOnError-bind_of q m f) path_far temp_far
        (λ temp r temp_far'. KeepsOnError-encoded host json b q temp target r temp_far')

module _ (host : Host) (json : EntryFormat) (b : FileBackend) where
  written_lem :
      (o : Option Text) (p : FilePath) (t : Text) (s : Node) (a : Unit {0})
      → (written host json b o p t s).0 ≡ ok a
      → sees p (written host json b o p t s).1 ≡ ok (content t)
  written_lem none p t s a e = elim (Result-cases (write_at p t s)) [
    | inl (m, e') ↦ ground (arith, e, e', write_at-sees_self p t s m)
    | inr (x, e') ↦ ground (arith, e, e')
  ]
  written_lem (some r) p t s a e = elim (Result-cases (write_at p (host.partial t) s)) [
    | inl (m, e') ↦ ground (arith, e, e')
    | inr (x, e') ↦ ground (arith, e, e')
  ]

  change-renames :
      (temp full : FilePath) (t : Text) (s : Node) (a : Unit {0})
      → sees temp s ≡ ok (content t)
      → (change host rename temp (rename_at temp full) s).0 ≡ ok a
      → sees full (change host rename temp (rename_at temp full) s).1 ≡ ok (content t)
  change-renames temp full t s a here e = elim (Option-cases (host.refuse rename temp)) [
    | inl e' ↦ elim (Result-cases (rename_at temp full s)) [
      | inl (m, e'') ↦ ground (arith, e, e', e'', rename_at-sees_self temp full t s m here)
      | inr (x, e'') ↦ ground (arith, e, e', e'')
    ]
    | inr (x, e') ↦ ground (arith, e, e')
  ]

  throws :
      {X A B : Type 0} (m : Act Error Node A) (e : Error) (s : Node) (a : B)
      → ((m >> throw e) s).0 ≡ ok a
      → X
  throws m e s a h = elim (Result-cases (m s).0) [
    | inl (u, e') ↦ ground (arith, e', h)
    | inr (x, e') ↦ ground (arith, e', h)
  ]

  encoded_lem :
      (temp full : FilePath) (t : Text) (r : Result Errno (Unit {0})) (s : Node) (a : Unit {0})
      → ((u : Unit {0}) → r ≡ ok u → sees temp s ≡ ok (content t))
      → (encoded host json b temp full r s).0 ≡ ok a
      → sees full (encoded host json b temp full r s).1 ≡ ok (content t)
  encoded_lem temp full t (ok u) s a here done =
      elim (Result-cases (change host rename temp (rename_at temp full) s).0) [
        | inl (v, e) ↦ change-renames temp full t s v (here u refl) e
        | inr (x, e) ↦ ground (arith, e, done)
      ]
  encoded_lem temp full t (err x) s a here done =
      throws (discard host json b temp (look host stat temp s).0) (describe x) _ a done

  -- The write and the rename.
  Leaves-encoded :
      (temp full : FilePath) (t : Text)
      → Leaves full (ok (content t)) (
          attempt (written host json b (host.refuse write temp) temp t)
          >>= encoded host json b temp full)
  unfolding Leaves
  Leaves-encoded temp full t s a done =
      encoded_lem temp full t _ _ a (λ u e. written_lem (host.refuse write temp) temp t s u e) done

  pub put-Leaves :
      (ctx : Context) (e : Entry)
      → Leaves
          (file_of host json b e.key)
          (ok (content (json.encode e.value)))
          (put host json b ctx e)
  unfolding put put_internal
  put-Leaves ctx e =
      let (path, key) = expand_path host json b e.key in
      Leaves-bind _ _ (stop ctx.acquire) _ (λ _. Leaves-bind _ _ (validate_path e.key) _ (λ _.
        Leaves-bind _ _ (stop ctx.done) _ (λ _.
          Leaves-bind _ _ (or_fail (change host mkdir path (mkdir_all path)) describe) _ (λ _.
            Leaves-bind _ _ (create_temp host json b path key host.suffixes) _ (λ temp.
              Leaves-bind _ _ (or_fail (look host chmod temp) describe) _
                (λ _. Leaves-encoded temp _ (json.encode e.value)))))))
