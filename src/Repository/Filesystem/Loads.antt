-- ===== src/Repository/Filesystem/Loads.antt =====
-- internal/repository/filesystem.go: the stubs that the headers of an imposter stand for.
use go_tartuffe.Prelude.{
  ℕ, zero, suc, ◌+◌, ◌<◌, Bool, true, false, List, [], ◌∷◌, ◌++◌, take, drop, length, ℤ, pos,
  negsuc, if◌then◌else◌, ◌≡◌, refl, sym, ap, subst, ◌∙◌,
}
use go_tartuffe.Models.Stub.{Stub}
use go_tartuffe.Repository.Memory.{with_stub, is_outside}
use go_tartuffe.Repository.Filesystem.{
  Host, ImposterHeader, ImposterStubHeader, stubs_name, imposter_dir, imposter_json, tmp_suffix,
}
use go_tartuffe.Repository.Filesystem.Disk.{Node, done}
use go_tartuffe.Repository.Filesystem.Actions.{name_at}
use go_tartuffe.Repository.Filesystem.Reading.{load_stub, load_stubs, read_header}
use go_tartuffe.Repository.Filesystem.Frame.{AgreeBelow, load_stub-same}
use go_tartuffe.Repository.Filesystem.Loaded.{place}
use go_tartuffe.Repository.Filesystem.Several.{IsFresh}
use go_tartuffe.Repository.Filesystem.Header.{IsNoDir}
use go_tartuffe.Repository.Filesystem.Operations.{with_header, is_beyond, position}

module _ (host : Host) (port : ℤ) where
  -- The directories of the stubs have names that were drawn before.
  abbrev pub AreOlder : ℕ → List ImposterStubHeader → Type 0
  AreOlder c [] = Unit
  AreOlder c (header ∷ headers) =
      ((d : ℕ) × (d < c) × (header.meta_dir ≡ stubs_name ∷ name_at host (d + 1) ∷ []))
      × AreOlder c headers

  -- The stubs are read from the directories of the headers, one by one.
  abbrev pub Load : List ImposterStubHeader → List Stub → Node → Type 0
  Load [] [] disk = Unit
  Load [] (s ∷ ss) disk = ⊥
  Load (x ∷ xs) [] disk = ⊥
  Load (x ∷ xs) (s ∷ ss) disk = (load_stub host port x disk ≡ done s) × Load xs ss disk

  -- The directory of an imposter as the operations leave it.
  pub record IsStored (header : ImposterHeader) (stubs : List Stub) (disk : Node) (c : ℕ)
      : Type 0 where
    pub reads : read_header host port disk ≡ done header
    pub loads : Load header.stubs stubs disk
    pub older : AreOlder c header.stubs
    pub fresh : IsFresh host port c disk
    pub no_tmp : IsNoDir (imposter_dir port ++ (imposter_json ++ tmp_suffix) ∷ []) disk

  pub load_stubs-Load :
      (xs : List ImposterStubHeader) (ss : List Stub) (disk : Node)
      → Load xs ss disk
      → load_stubs host port xs disk ≡ done ss
  unfolding load_stubs
  load_stubs-Load [] [] disk h = refl
  load_stubs-Load [] (s ∷ ss) disk h = absurd h
  load_stubs-Load (x ∷ xs) [] disk h = absurd h
  load_stubs-Load (x ∷ xs) (s ∷ ss) disk h = rw (h.0, load_stubs-Load xs ss disk h.1) refl

  Load-length :
      (xs : List ImposterStubHeader) (ss : List Stub) (disk : Node)
      → Load xs ss disk
      → length xs ≡ length ss
  Load-length [] [] disk h = refl
  Load-length [] (s ∷ ss) disk h = absurd h
  Load-length (x ∷ xs) [] disk h = absurd h
  Load-length (x ∷ xs) (s ∷ ss) disk h = ap suc (Load-length xs ss disk h.1)

  -- One more header, and where it stands.
  Load-insert :
      (i : ℕ) (x : ImposterStubHeader) (s : Stub) (xs : List ImposterStubHeader) (ss : List Stub)
      (disk : Node)
      → Load xs ss disk
      → load_stub host port x disk ≡ done s
      → Load (take i xs ++ x ∷ drop i xs) (take i ss ++ s ∷ drop i ss) disk
  Load-insert zero x s xs ss disk h e = (e, h)
  Load-insert (suc i) x s [] [] disk h e = (e, tt)
  Load-insert (suc i) x s [] (t ∷ ss) disk h e = absurd h
  Load-insert (suc i) x s (y ∷ xs) [] disk h e = absurd h
  Load-insert (suc i) x s (y ∷ xs) (t ∷ ss) disk h e = (h.0, Load-insert i x s xs ss disk h.1 e)

  Load-end :
      (x : ImposterStubHeader) (s : Stub) (xs : List ImposterStubHeader) (ss : List Stub)
      (disk : Node)
      → Load xs ss disk
      → load_stub host port x disk ≡ done s
      → Load (xs ++ x ∷ []) (ss ++ s ∷ []) disk
  Load-end x s [] [] disk h e = (e, tt)
  Load-end x s [] (t ∷ ss) disk h e = absurd h
  Load-end x s (y ∷ xs) [] disk h e = absurd h
  Load-end x s (y ∷ xs) (t ∷ ss) disk h e = (h.0, Load-end x s xs ss disk h.1 e)

  is_outside-same :
      (index : ℤ) (xs : List ImposterStubHeader) (ss : List Stub)
      → length xs ≡ length ss
      → is_beyond index xs ≡ is_outside index ss
  unfolding is_beyond is_outside
  is_outside-same (pos i) xs ss e = rw e refl
  is_outside-same (negsuc i) xs ss e = refl

  pub Load-with_header :
      (index : ℤ) (x : ImposterStubHeader) (s : Stub) (xs : List ImposterStubHeader)
      (ss : List Stub) (disk : Node)
      → Load xs ss disk
      → load_stub host port x disk ≡ done s
      → Load (with_header x index xs) (with_stub s index ss) disk
  unfolding with_header with_stub
  Load-with_header index x s xs ss disk h e =
      rw (is_outside-same index xs ss (Load-length xs ss disk h)) (cases (is_outside index ss))
    where
      cases :
          (b : Bool)
          → Load
              (if b then xs ++ x ∷ [] else take (position index) xs ++ x ∷ drop (position index) xs)
              (if b then ss ++ s ∷ [] else take (position index) ss ++ s ∷ drop (position index) ss)
              disk
      cases true = Load-end x s xs ss disk h e
      cases false = Load-insert (position index) x s xs ss disk h e

  -- Another disk on which the older directories are the same.
  pub Load-older :
      (c : ℕ) (xs : List ImposterStubHeader) (ss : List Stub) (disk disk' : Node)
      → AreOlder c xs
      → ((d : ℕ) → d < c → AgreeBelow (place host port d) disk' disk)
      → Load xs ss disk
      → Load xs ss disk'
  Load-older c [] [] disk disk' older agree h = tt
  Load-older c [] (s ∷ ss) disk disk' older agree h = absurd h
  Load-older c (x ∷ xs) [] disk disk' older agree h = absurd h
  Load-older c (x ∷ xs) (s ∷ ss) disk disk' ((d, lt, e), older) agree h = (
    load_stub-same host disk' disk port x
          (subst (λ p. AgreeBelow (imposter_dir port ++ p) disk' disk) (sym e) (agree d lt))
        ∙ h.0,
    Load-older c xs ss disk disk' older agree h.1,
  )
