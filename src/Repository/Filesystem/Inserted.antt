-- ===== src/Repository/Filesystem/Inserted.antt =====
-- internal/repository/filesystem.go and memory.go: AddStub on files is AddStub in memory.
use go_tartuffe.Prelude.{
  ℕ, ◌+◌, ◌^◌, ◌<◌, Text, text_eq, false, List, [], ◌∷◌, ◌++◌, length, ℤ, ◌≡◌, ◌≢◌, refl, sym, ap,
  ◌∙◌, arith,
}
use go_tartuffe.Models.Stub.{Stub}
use go_tartuffe.Repository.Memory.{with_stub}
use go_tartuffe.Repository.Filesystem.{
  Host, ImposterHeader, itoa, stubs_name, imposter_dir, requests_name, imposter_json, tmp_suffix,
}
use go_tartuffe.Repository.Filesystem.Disk.{Node, FilePath, done, read_file}
use go_tartuffe.Repository.Filesystem.Disk.Graft.{graft, find-apart, apart-longer, graft-IsClear}
use go_tartuffe.Repository.Filesystem.Actions.{name_at, read_json}
use go_tartuffe.Repository.Filesystem.Stubs.{save_stub}
use go_tartuffe.Repository.Filesystem.Reading.{
  restored, loaded, load_stubs, requests_or_none, read_header, get_imposter,
}
use go_tartuffe.Repository.Filesystem.Frame.{
  load_stub-same, get_imposter-same, requests_or_none-same,
}
use go_tartuffe.Repository.Filesystem.Saved.{on, ReadsBack}
use go_tartuffe.Repository.Filesystem.Loaded.{
  place, header_at, StubReadsBack, save_stub-ok, load_stub-ok,
}
use go_tartuffe.Repository.Filesystem.Several.{kept_stub, places_apart}
use go_tartuffe.Repository.Filesystem.Header.{ports_apart, IsNoDir, write_header-ok}
use go_tartuffe.Repository.Filesystem.Added.{beside-IsAside}
use go_tartuffe.Repository.Filesystem.Loads.{
  IsStored, load_stubs-Load, Load-with_header, Load-older,
}
use go_tartuffe.Repository.Filesystem.Operations.{insert_stub, write_header, with_header}

module _ (host : Host) (port : ℤ) where
  header-IsNoDir :
      (header : ImposterHeader) (disk : Node)
      → read_header host port disk ≡ done header
      → IsNoDir (imposter_dir port ++ imposter_json ∷ []) disk
  unfolding read_header read_json read_file
  header-IsNoDir header disk h below e = ground (arith, h, e)

  get-read :
      (header : ImposterHeader) (stubs : List Stub) (disk : Node)
      → read_header host port disk ≡ done header
      → load_stubs host port header.stubs disk ≡ done stubs
      → get_imposter host port disk
        ≡ done (restored port header stubs (requests_or_none host port disk))
  unfolding get_imposter
  get-read header stubs disk h k = rw (h, k) refl

  insert_stub-runs :
      (header : ImposterHeader) (disk : Node) (c : ℕ) (stub : Stub) (index : ℤ)
      → read_header host port disk ≡ done header
      → (disk' : Node) (n : ℕ) (left : Node)
      → save_stub host port stub (on disk c) ≡ (done (header_at host c stub), on disk' n)
      → write_header host port
          (record header { stubs = with_header (header_at host c stub) index header.stubs })
          (on disk' n)
        ≡ (done tt, on left n)
      → insert_stub host port stub index (on disk c) ≡ (done tt, on left n)
  unfolding insert_stub
  insert_stub-runs header disk c stub index h disk' n left runs writes = rw (h, runs) writes

  -- AddStub of an imposter as the operations leave it succeeds. Get then gives the imposter as it was
  -- before, with the stub where AddStub in memory puts it and with what the files keep of it; what Get
  -- gives for every other port stays. The JSON of the stub and of the new header reads back, and the
  -- counter does not overflow.
  pub get-insert_stub :
      (header : ImposterHeader) (stubs : List Stub) (disk : Node) (c : ℕ) (stub : Stub) (index : ℤ)
      → IsStored host port header stubs disk c
      → StubReadsBack host c stub
      → ReadsBack host.headers
          (record header { stubs = with_header (header_at host c stub) index header.stubs })
      → c + 2 + length stub.responses < 2 ^ 63
      → (get_imposter host port disk
          ≡ done (restored port header stubs (requests_or_none host port disk)))
        × ((insert_stub host port stub index (on disk c)).0 ≡ done tt)
        × (get_imposter host port (insert_stub host port stub index (on disk c)).1.disk
            ≡ done (
                restored port header
                  (with_stub (kept_stub stub) index stubs)
                  (requests_or_none host port disk)))
        × ((j : ℤ)
            → j ≢ port
            → get_imposter host j (insert_stub host port stub index (on disk c)).1.disk
              ≡ get_imposter host j disk)
  unfolding restored
  get-insert_stub header stubs disk c stub index i back hback small =
      let (clear, empty) = i.fresh c (omega arith) (omega arith) in
      let (node, is_read, runs) =
        save_stub-ok host port stub disk c clear empty back (omega arith) in
      let disk' = graft (place host port c) node disk in
      let header' : ImposterHeader = record header {
        stubs = with_header (header_at host c stub) index header.stubs;
      } in
      let beside = λ (m : Text). λ (q : FilePath). λ (h : text_eq stubs_name m ≡ false).
        find-apart (place host port c) (itoa port ∷ m ∷ q) node disk
          (beside-IsAside host port c m q h c (omega arith) (omega arith)) in
      let w =
        write_header-ok host port header' disk' (c + 1 + length stub.responses)
          (name_at host (c + 1)) (graft-IsClear (place host port c) node disk clear)
          (λ below e.
            header-IsNoDir header disk i.reads below
              (sym (beside imposter_json [] (unfold text_eq in refl)) ∙ e))
          (λ below e.
            i.no_tmp below
              (sym (beside (imposter_json ++ tmp_suffix) [] (unfold text_eq in refl)) ∙ e))
          hback in
      let new =
        load_stub-same host w.left disk' port (header_at host c stub) (λ q. w.stubs_same (_ ∷ q))
        ∙ load_stub-ok host port (header_at host c stub) stub.responses node disk clear is_read in
      let old =
        Load-older host port c header.stubs stubs disk w.left i.older
          (λ d lt q.
            w.stubs_same (name_at host (d + 1) ∷ q)
            ∙ find-apart (place host port c) (place host port d ++ q) node disk (
                apart-longer (place host port c) (place host port d) q
                  (places_apart host port c d (omega arith) (omega arith) (λ e. omega (arith, e)))))
          i.loads in
      let loads =
        Load-with_header host port index (header_at host c stub) (kept_stub stub) header.stubs stubs
          w.left old (unfold kept_stub loaded in new) in
      rw
        (insert_stub-runs header disk c stub index i.reads disk' (c + 1 + length stub.responses)
          w.left runs w.runs)
        (
          get-read header stubs disk i.reads
              (load_stubs-Load host port header.stubs stubs disk i.loads),
          refl,
          get-read header' (with_stub (kept_stub stub) index stubs) w.left w.reads (
                load_stubs-Load host port header'.stubs (with_stub (kept_stub stub) index stubs)
                  w.left loads)
              ∙ ap (λ rs. done (restored port header (with_stub (kept_stub stub) index stubs) rs))
                  (requests_or_none-same host w.left disk port
                    (λ q. w.requests_same q ∙ beside requests_name q (unfold text_eq in refl))),
          λ j h. get_imposter-same host w.left disk j (λ q.
              w.others_same j h q
              ∙ find-apart (place host port c) (imposter_dir j ++ q) node disk
                  (ports_apart port j _ q h)),
        )
