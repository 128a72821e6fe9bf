-- ===== src/Repository/Filesystem/Several.antt =====
-- internal/repository/filesystem.go: the loop of Add and UpdateStubs that saves the stubs.
use go_tartuffe.Prelude.{
  ℕ, ◌+◌, ◌^◌, ◌<◌, ◌≤◌, true, List, [], ◌∷◌, ◌++◌, map, length, ℤ, ◌≡◌, ◌≢◌, refl, ◌∙◌, arith,
}
use go_tartuffe.Models.Stub.{Stub}
use go_tartuffe.Repository.Filesystem.{Host, ImposterStubHeader, stubs_dir}
use go_tartuffe.Repository.Filesystem.Disk.{Node, dir, no_entries, FilePath, done, find_node}
use go_tartuffe.Repository.Filesystem.Disk.Graft.{
  graft, sub, IsClear, are_apart, sub-apart, find-apart, graft-IsClear, IsClear-last, apart-longer,
  apart-common,
}
use go_tartuffe.Repository.Filesystem.Names.{names_differ}
use go_tartuffe.Repository.Filesystem.Actions.{name_at}
use go_tartuffe.Repository.Filesystem.Stubs.{save_stubs}
use go_tartuffe.Repository.Filesystem.Reading.{load_stubs, loaded}
use go_tartuffe.Repository.Filesystem.Frame.{load_stub-same}
use go_tartuffe.Repository.Filesystem.Saved.{on, same_counter}
use go_tartuffe.Repository.Filesystem.Loaded.{
  place, header_at, StubReadsBack, save_stub-ok, load_stub-ok,
}

-- The counters that saving the stubs takes.
unfoldable pub used : List Stub → ℕ
used [] = 0
used (s ∷ stubs) = 1 + length s.responses + used stubs

-- What the files keep of a stub.
unfoldable pub kept_stub : Stub → Stub
unfolding loaded
kept_stub s = loaded (record { predicates = s.predicates; meta_dir = [] }) s.responses

module _ (host : Host) where
  unfoldable pub headers_at : ℕ → List Stub → List ImposterStubHeader
  headers_at c [] = []
  headers_at c (s ∷ stubs) = header_at host c s ∷ headers_at (c + 1 + length s.responses) stubs

  unfoldable pub StubsReadBack : ℕ → List Stub → Type 0
  StubsReadBack c [] = Unit
  StubsReadBack c (s ∷ stubs) =
      StubReadsBack host c s × StubsReadBack (c + 1 + length s.responses) stubs

  -- Nothing stands where the stubs to come are saved.
  abbrev pub IsFresh : ℤ → ℕ → Node → Type 0
  IsFresh port c disk =
      (d : ℕ)
      → c ≤ d
      → d + 1 < 2 ^ 63
      → IsClear (place host port d) disk × (sub (place host port d) disk ≡ dir no_entries)

  -- A path apart from all those directories.
  abbrev pub IsAside : ℤ → ℕ → FilePath → Type 0
  IsAside port c q = (d : ℕ) → c ≤ d → d + 1 < 2 ^ 63 → are_apart (place host port d) q ≡ true

  pub places_apart :
      (port : ℤ) (c d : ℕ)
      → c + 1 < 2 ^ 63
      → d + 1 < 2 ^ 63
      → c ≢ d
      → are_apart (place host port c) (place host port d) ≡ true
  places_apart port c d hc hd h =
      apart-common (stubs_dir port) (name_at host (c + 1) ∷ []) (name_at host (d + 1) ∷ []) (
        unfold are_apart in
        rw (names_differ host (c + 1) (d + 1) hc hd (λ e. h (omega (arith, e)))) refl)

  pub graft-IsFresh :
      (port : ℤ) (c c' : ℕ) (x disk : Node)
      → c < c'
      → IsFresh port c disk
      → IsFresh port c' (graft (place host port c) x disk)
  graft-IsFresh port c c' x disk lt fresh d le small =
      let (clear, e) = fresh c (omega arith) (omega arith) in
      let (clear', e') = fresh d (omega arith) small in
      (
        IsClear-last (stubs_dir port) (name_at host (c + 1)) (name_at host (d + 1))
            (graft (place host port c) x disk) (graft-IsClear (place host port c) x disk clear),
        sub-apart (place host port c) (place host port d) x disk
              (places_apart port c d (omega arith) small (λ e. omega (arith, e)))
            ∙ e',
      )

  pub record SavesStubs (port : ℤ) (c : ℕ) (stubs : List Stub) (disk : Node) : Type 0 where
    pub left : Node
    pub runs :
        save_stubs host port stubs (on disk c)
        ≡ (done (headers_at c stubs), on left (c + used stubs))
    pub loads : load_stubs host port (headers_at c stubs) left ≡ done (map kept_stub stubs)
    pub keeps : (q : FilePath) → IsAside port c q → find_node q left ≡ find_node q disk
    pub fresh : IsFresh port (c + used stubs) left

  pub save_stubs-ok :
      (port : ℤ) (c : ℕ) (stubs : List Stub) (disk : Node)
      → IsFresh port c disk
      → StubsReadBack c stubs
      → c + used stubs < 2 ^ 63
      → SavesStubs port c stubs disk
  unfolding save_stubs headers_at kept_stub StubsReadBack used load_stubs loaded
  save_stubs-ok port c [] disk fresh back small = record {
    left = disk;
    runs = same_counter host [] disk c (c + 0) (omega arith);
    loads = refl;
    keeps = λ q h. refl;
    fresh = λ d le. fresh d (omega arith);
  }
  save_stubs-ok port c (s ∷ stubs) disk fresh (back, backs) small =
      let c' = c + 1 + length s.responses in
      let (clear, empty) = fresh c (omega arith) (omega arith) in
      let (node, is_read, runs) = save_stub-ok host port s disk c clear empty back (omega arith) in
      let disk' = graft (place host port c) node disk in
      let rest =
        save_stubs-ok port c' stubs disk' (graft-IsFresh port c c' node disk (omega arith) fresh)
          backs (omega arith) in
      record {
        left = rest.left;
        runs =
            rw (runs, rest.runs)
              (same_counter host _ rest.left (c' + used stubs)
                (c + (1 + length s.responses + used stubs)) (omega arith));
        loads =
            rw
              (
                load_stub-same host rest.left disk' port (header_at host c s) (λ q.
                      rest.keeps (place host port c ++ q) (λ d le h.
                        apart-longer (place host port d) (place host port c) q
                          (places_apart port d c h (omega arith) (λ e. omega (arith, e)))))
                    ∙ load_stub-ok host port (header_at host c s) s.responses node disk clear
                        is_read,
                rest.loads,
              )
              refl;
        keeps = λ q h.
            rest.keeps q (λ d le. h d (omega arith))
            ∙ find-apart (place host port c) q node disk (h c (omega arith) (omega arith));
        fresh = λ d le. rest.fresh d (omega arith);
      }
