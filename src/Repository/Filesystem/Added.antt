-- ===== src/Repository/Filesystem/Added.antt =====
-- internal/repository/filesystem.go: Add, then Get.
use go_tartuffe.Prelude.{
  ℕ, ◌+◌, ◌^◌, ◌<◌, Text, text_eq, text_eq_refl, false, [], ◌∷◌, ◌++◌, map, ℤ, ◌≡◌, ◌≢◌, refl, sym,
  subst, ◌∙◌, arith,
}
use go_tartuffe.Models.Imposter.{Imposter}
use go_tartuffe.Repository.Filesystem.{
  Host, itoa, stubs_name, imposter_dir, requests_dir, requests_name, imposter_json, tmp_suffix,
}
use go_tartuffe.Repository.Filesystem.Disk.{
  Node, dir, Entries, no_entries, FilePath, done, failed, not_exist, find_node, lookup_entry, child,
  mkdir_all,
}
use go_tartuffe.Repository.Filesystem.Disk.Graft.{
  graft, sub, IsClear, are_apart, find-apart, find-graft, child-set,
}
use go_tartuffe.Repository.Filesystem.Actions.{on_disk, name_at}
use go_tartuffe.Repository.Filesystem.Reading.{restored, get_imposter}
use go_tartuffe.Repository.Filesystem.Frame.{AgreeBelow, get_imposter-same, requests_or_none-same}
use go_tartuffe.Repository.Filesystem.Saved.{on, ReadsBack}
use go_tartuffe.Repository.Filesystem.Several.{
  used, headers_at, kept_stub, StubsReadBack, IsFresh, IsAside, SavesStubs, save_stubs-ok,
}
use go_tartuffe.Repository.Filesystem.Header.{
  child_missing, load_headers-same, no_requests, ports_apart, IsNoDir, WritesHeader,
  write_header-ok,
}
use go_tartuffe.Repository.Filesystem.Operations.{add_imposter, unless_present, header_of}

-- What the files keep of an imposter: its protocol, port, name and recordRequests, and of its stubs
-- the predicates and the responses.
unfoldable pub kept_imposter : Imposter → Imposter
unfolding restored
kept_imposter imp = restored imp.port (header_of imp []) (map kept_stub imp.stubs) []

empty-IsFresh :
    (n : Text)
    → IsClear (stubs_name ∷ n ∷ []) (dir no_entries)
      × (sub (stubs_name ∷ n ∷ []) (dir no_entries) ≡ dir no_entries)
unfolding IsClear sub child lookup_entry
empty-IsFresh n = (tt, refl)

IsNoDir-of_missing :
    (path : FilePath) (disk : Node) → find_node path disk ≡ failed not_exist → IsNoDir path disk
IsNoDir-of_missing path disk h below e = ground (arith, h, e)

module _ (host : Host) where
  -- Beside the stubs in the directory of the port.
  pub beside-IsAside :
      (port : ℤ) (c : ℕ) (m : Text) (q : FilePath)
      → text_eq stubs_name m ≡ false
      → IsAside host port c (itoa port ∷ m ∷ q)
  unfolding are_apart
  beside-IsAside port c m q h d le small = rw (text_eq_refl (itoa port), h) refl

  -- A directory that is just made is fresh.
  pub made-IsFresh :
      (port : ℤ) (es : Entries) (c : ℕ)
      → IsFresh host port c (graft (imposter_dir port) (dir no_entries) (dir es))
  unfolding graft IsClear sub
  made-IsFresh port es c d le small =
      subst
        (λ x.
          IsClear (stubs_name ∷ name_at host (d + 1) ∷ []) x
          × (sub (stubs_name ∷ name_at host (d + 1) ∷ []) x ≡ dir no_entries))
        (sym (child-set (itoa port) (dir no_entries) es)) (empty-IsFresh (name_at host (d + 1)))

  module _ (imp : Imposter) (es : Entries) (c : ℕ)
      (missing : find_node (imposter_dir imp.port) (dir es) ≡ failed not_exist) where
    made : Node
    made = graft (imposter_dir imp.port) (dir no_entries) (dir es)

    mkdir-made : on_disk (mkdir_all (imposter_dir imp.port)) (on (dir es) c) ≡ (done tt, on made c)
    unfolding on_disk made mkdir_all graft
    mkdir-made = rw (child_missing (itoa imp.port) es missing) refl

    unless_present-ok : unless_present imp.port (on (dir es) c) ≡ (done tt, on (dir es) c)
    unfolding unless_present
    unless_present-ok = rw (unless_present, missing) refl

    made_missing : (m : Text) → find_node (itoa imp.port ∷ m ∷ []) made ≡ failed not_exist
    unfolding made find_node IsClear lookup_entry
    made_missing m = find-graft (imposter_dir imp.port) (m ∷ []) (dir no_entries) (dir es) tt

    stubs_saved :
        StubsReadBack host c imp.stubs
        → c + used imp.stubs < 2 ^ 63
        → SavesStubs host imp.port c imp.stubs made
    unfolding made
    stubs_saved backs small =
        save_stubs-ok host imp.port c imp.stubs made (made-IsFresh imp.port es c) backs small

    others_made : (j : ℤ) → j ≢ imp.port → AgreeBelow (imposter_dir j) made (dir es)
    unfolding made
    others_made j h q =
        find-apart (imposter_dir imp.port) (imposter_dir j ++ q) (dir no_entries) (dir es)
          (ports_apart imp.port j [] q h)

    module _ (s : SavesStubs host imp.port c imp.stubs made)
        (w : WritesHeader host imp.port
          (header_of imp (headers_at host c imp.stubs))
          s.left
          (c + used imp.stubs)) where
      add-runs : add_imposter host imp (on (dir es) c) ≡ (done tt, on w.left (c + used imp.stubs))
      unfolding add_imposter
      add-runs = rw (unless_present-ok, mkdir-made, s.runs) w.runs

      get-written :
          find_node (requests_dir imp.port) s.left ≡ failed not_exist
          → get_imposter host imp.port w.left ≡ done (kept_imposter imp)
      unfolding get_imposter kept_imposter restored
      get-written none_recorded =
          rw
            (
              w.reads,
              load_headers-same host imp.port w.left s.left c imp.stubs w.stubs_same ∙ s.loads,
              requests_or_none-same host w.left s.left imp.port w.requests_same
                  ∙ no_requests host imp.port s.left none_recorded,
            )
            refl

    -- An imposter that is added on a free port is read back with what the files keep of it, and what
    -- is read of every other port is as before. The JSON of the stubs and of the header reads back,
    -- and the counter does not overflow.
    pub get-add_imposter :
        StubsReadBack host c imp.stubs
        → ReadsBack host.headers (header_of imp (headers_at host c imp.stubs))
        → c + used imp.stubs + 1 < 2 ^ 63
        → ((add_imposter host imp (on (dir es) c)).0 ≡ done tt)
          × (get_imposter host imp.port (add_imposter host imp (on (dir es) c)).1.disk
              ≡ done (kept_imposter imp))
          × ((j : ℤ)
              → j ≢ imp.port
              → get_imposter host j (add_imposter host imp (on (dir es) c)).1.disk
                ≡ get_imposter host j (dir es))
    get-add_imposter backs back small =
        let n = c + used imp.stubs in
        let s = stubs_saved backs (omega arith) in
        let beside = λ (m : Text). λ (h : text_eq stubs_name m ≡ false).
          s.keeps (itoa imp.port ∷ m ∷ []) (beside-IsAside imp.port c m [] h) ∙ made_missing m in
        let w =
          write_header-ok host imp.port (header_of imp (headers_at host c imp.stubs)) s.left n
            (name_at host (n + 1)) (s.fresh n (omega arith) small).0
            (IsNoDir-of_missing _ s.left (beside imposter_json (unfold text_eq in refl)))
            (IsNoDir-of_missing _ s.left
              (beside (imposter_json ++ tmp_suffix) (unfold text_eq in refl)))
            back in
        rw (add-runs s w) (
          refl,
          get-written s w (beside requests_name (unfold text_eq in refl)),
          λ j h. get_imposter-same host w.left (dir es) j (λ q.
              w.others_same j h q
              ∙ s.keeps (imposter_dir j ++ q) (λ d _ _. ports_apart imp.port j _ q h)
              ∙ others_made j h q),
        )
