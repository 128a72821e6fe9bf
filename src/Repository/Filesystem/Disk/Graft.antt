-- ===== src/Repository/Filesystem/Disk/Graft.antt =====
-- internal/repository/filesystem.go: a call on a path below a directory changes the tree below that
-- directory only.
use go_tartuffe.Prelude.{
  Text, text_eq, text_eq→eq, text_eq_refl, Bool, true, false, if◌then◌else◌, [], ◌∷◌, ◌++◌, ◌≡◌,
  refl, sym, subst, ◌∙◌, arith, Option-cases, Bool-cases, inl, inr,
}
use go_tartuffe.Repository.Filesystem.Disk.{
  Node, file, dir, Entries, no_entries, FilePath, Outcome, done, failed, ◌>>=◌, lookup_entry,
  set_entry, child, find_node, mkdir_all, in_directory,
}
use go_tartuffe.Repository.Filesystem.Disk.Entry.{lookup-set, lookup-set_same, set-set}

-- The tree with another one at the path, and the one that stands there.
unfoldable pub graft : FilePath → Node → Node → Node
graft [] x disk = x
graft (n ∷ p) x (file t) = file t
graft (n ∷ p) x (dir es) = dir (set_entry n (graft p x (child n es)) es)

unfoldable pub sub : FilePath → Node → Node
sub [] disk = disk
sub (n ∷ p) (file t) = dir no_entries
sub (n ∷ p) (dir es) = sub p (child n es)

-- No file stands on the way to the path.
unfoldable pub IsClear : FilePath → Node → Type 0
IsClear [] disk = Unit
IsClear (n ∷ p) (file t) = ⊥
IsClear (n ∷ p) (dir es) = IsClear p (child n es)

-- The paths part before either of them ends.
unfoldable pub are_apart : FilePath → FilePath → Bool
are_apart [] q = false
are_apart (a ∷ p) [] = false
are_apart (a ∷ p) (b ∷ q) = if text_eq a b then are_apart p q else true

pub child-set : (n : Text) (x : Node) (es : Entries) → child n (set_entry n x es) ≡ x
unfolding child
child-set n x es = rw (child, lookup-set_same n x es) refl

pub find-graft :
    (p q : FilePath) (x disk : Node)
    → IsClear p disk
    → find_node (p ++ q) (graft p x disk) ≡ find_node q x
unfolding IsClear graft find_node
find-graft [] q x disk c = refl
find-graft (n ∷ p) q x (file t) c = absurd c
find-graft (n ∷ p) q x (dir es) c =
    rw (find_node, lookup-set_same n (graft p x (child n es)) es) (find-graft p q x (child n es) c)

pub sub-graft : (p : FilePath) (x disk : Node) → IsClear p disk → sub p (graft p x disk) ≡ x
unfolding IsClear graft sub
sub-graft [] x disk c = refl
sub-graft (n ∷ p) x (file t) c = absurd c
sub-graft (n ∷ p) x (dir es) c =
    rw (child-set n (graft p x (child n es)) es) (sub-graft p x (child n es) c)

pub graft-graft :
    (p : FilePath) (x y disk : Node) → IsClear p disk → graft p x (graft p y disk) ≡ graft p x disk
unfolding IsClear graft
graft-graft [] x y disk c = refl
graft-graft (n ∷ p) x y (file t) c = absurd c
graft-graft (n ∷ p) x y (dir es) c =
    rw
      (
        child-set n (graft p y (child n es)) es,
        set-set n (graft p x (graft p y (child n es))) (graft p y (child n es)) es,
        graft-graft p x y (child n es) c,
      )
      refl

pub graft-IsClear : (p : FilePath) (x disk : Node) → IsClear p disk → IsClear p (graft p x disk)
unfolding IsClear graft
graft-IsClear [] x disk c = tt
graft-IsClear (n ∷ p) x (file t) c = absurd c
graft-IsClear (n ∷ p) x (dir es) c =
    rw (child-set n (graft p x (child n es)) es) (graft-IsClear p x (child n es) c)

pub find-child :
    (a b : Text) (q : FilePath) (es : Entries)
    → find_node (a ∷ b ∷ q) (dir es) ≡ find_node (b ∷ q) (child a es)
unfolding find_node child lookup_entry
find-child a b q es = elim (Option-cases (lookup_entry a es)) [
  | inl e ↦ rw (find_node, child, e) refl
  | inr (node, e) ↦ rw (find_node, child, e) refl
]

apart-nonempty :
    (p q : FilePath) → are_apart p q ≡ true → (b : Text) × (q' : FilePath) × (q ≡ b ∷ q')
unfolding are_apart
apart-nonempty [] q h = absurd (ground arith)
apart-nonempty (a ∷ p) [] h = absurd (ground arith)
apart-nonempty (a ∷ p) (b ∷ q) h = (b, q, refl)

are_apart-same :
    (a b : Text) (p q : FilePath)
    → text_eq a b ≡ true
    → are_apart (a ∷ p) (b ∷ q) ≡ true
    → are_apart p q ≡ true
unfolding are_apart
are_apart-same a b p q e h = ground arith

-- Below a name, a tree is read as its child is.
find_below :
    (a : Text) (q : FilePath) (es fs : Entries)
    → (b : Text) × (q' : FilePath) × (q ≡ b ∷ q')
    → find_node q (child a es) ≡ find_node q (child a fs)
    → find_node (a ∷ q) (dir es) ≡ find_node (a ∷ q) (dir fs)
find_below a q es fs (b, q', e) h =
    subst
      (λ q.
        find_node q (child a es) ≡ find_node q (child a fs)
        → find_node (a ∷ q) (dir es) ≡ find_node (a ∷ q) (dir fs))
      (sym e) (λ h. find-child a b q' es ∙ h ∙ sym (find-child a b q' fs)) h

-- What stands at another path stays.
pub find-apart :
    (p q : FilePath) (x disk : Node)
    → are_apart p q ≡ true
    → find_node q (graft p x disk) ≡ find_node q disk
unfolding graft find_node
find-apart [] q x disk h = absurd (unfold are_apart in ground arith)
find-apart (a ∷ p) [] x disk h = absurd (unfold are_apart in ground arith)
find-apart (a ∷ p) (b ∷ q) x (file t) h = refl
find-apart (a ∷ p) (b ∷ q) x (dir es) h = elim (Bool-cases (text_eq a b)) [
  | inl e ↦
      let h' = are_apart-same a b p q e h in
      let changed = set_entry a (graft p x (child a es)) es in
      subst (λ b. find_node (b ∷ q) (dir changed) ≡ find_node (b ∷ q) (dir es)) (text_eq→eq a b e)
        (find_below a q changed es (apart-nonempty p q h')
          (rw (child-set a (graft p x (child a es)) es) (find-apart p q x (child a es) h')))
  | inr e ↦ rw (find_node, lookup-set a b (graft p x (child a es)) es, e) refl
]

grafted_below :
    (n : Text) (p : FilePath) (es : Entries) (o : Outcome Node)
    → ((o >>= λ y. done (graft p y (child n es))) >>= λ node. done (dir (set_entry n node es)))
      ≡ (o >>= λ y. done (graft (n ∷ p) y (dir es)))
unfolding graft
grafted_below n p es (done y) = refl
grafted_below n p es (failed e) = refl

grafted_again :
    (n : Text) (p : FilePath) (x : Node) (es : Entries) (o : Outcome Node)
    → ((o >>= λ y. done (graft p y (child n es))) >>= λ node.
        done (dir (set_entry n node (set_entry n x es))))
      ≡ (o >>= λ y. done (graft (n ∷ p) y (dir es)))
unfolding graft
grafted_again n p x es (done y) = rw (set-set n (graft p y (child n es)) x es) refl
grafted_again n p x es (failed e) = refl

grafted_empty : (o : Outcome Node) → o ≡ (o >>= λ y. done y)
grafted_empty (done y) = refl
grafted_empty (failed e) = refl

pub mkdir_all-sub :
    (p q : FilePath) (disk : Node)
    → IsClear p disk
    → mkdir_all (p ++ q) disk ≡ (mkdir_all q (sub p disk) >>= λ y. done (graft p y disk))
unfolding IsClear graft sub mkdir_all
mkdir_all-sub [] q disk c = grafted_empty (mkdir_all q disk)
mkdir_all-sub (n ∷ p) q (file t) c = absurd c
mkdir_all-sub (n ∷ p) q (dir es) c =
    rw (mkdir_all-sub p q (child n es) c) (grafted_below n p es (mkdir_all q (sub p (child n es))))

pub in_directory-graft :
    (p q : FilePath) (change : Entries → Outcome Entries) (x disk : Node)
    → IsClear p disk
    → in_directory (p ++ q) change (graft p x disk)
      ≡ (in_directory q change x >>= λ y. done (graft p y disk))
unfolding IsClear graft in_directory
in_directory-graft [] q change x disk c = grafted_empty (in_directory q change x)
in_directory-graft (n ∷ p) q change x (file t) c = absurd c
in_directory-graft (n ∷ p) q change x (dir es) c =
    rw
      (
        in_directory,
        lookup-set_same n (graft p x (child n es)) es,
        in_directory-graft p q change x (child n es) c,
      )
      (grafted_again n p (graft p x (child n es)) es (in_directory q change x))

child-other :
    (a b : Text) (x : Node) (es : Entries)
    → text_eq a b ≡ false
    → child b (set_entry a x es) ≡ child b es
unfolding child
child-other a b x es e = rw (child, lookup-set a b x es, e) refl

sub-same :
    (a b : Text) (q : FilePath) (x : Node) (es : Entries)
    → text_eq a b ≡ true
    → sub q x ≡ sub q (child a es)
    → sub (b ∷ q) (dir (set_entry a x es)) ≡ sub (b ∷ q) (dir es)
unfolding sub
sub-same a b q x es e h =
    subst (λ b. sub (b ∷ q) (dir (set_entry a x es)) ≡ sub (b ∷ q) (dir es)) (text_eq→eq a b e)
      (rw (child-set a x es) h)

pub sub-apart :
    (p q : FilePath) (x disk : Node) → are_apart p q ≡ true → sub q (graft p x disk) ≡ sub q disk
unfolding graft
sub-apart [] q x disk h = absurd (unfold are_apart in ground arith)
sub-apart (a ∷ p) [] x disk h = absurd (unfold are_apart in ground arith)
sub-apart (a ∷ p) (b ∷ q) x (file t) h = refl
sub-apart (a ∷ p) (b ∷ q) x (dir es) h = elim (Bool-cases (text_eq a b)) [
  | inl e ↦
      sub-same a b q (graft p x (child a es)) es e
        (sub-apart p q x (child a es) (are_apart-same a b p q e h))
  | inr e ↦ unfold sub in rw (child-other a b (graft p x (child a es)) es e) refl
]

-- The last name does not matter to what stands on the way.
pub IsClear-last :
    (p : FilePath) (m n : Text) (disk : Node)
    → IsClear (p ++ m ∷ []) disk
    → IsClear (p ++ n ∷ []) disk
unfolding IsClear
IsClear-last [] m n (file t) c = c
IsClear-last [] m n (dir es) c = tt
IsClear-last (a ∷ p) m n (file t) c = c
IsClear-last (a ∷ p) m n (dir es) c = IsClear-last p m n (child a es) c

pub IsClear-prefix : (p q : FilePath) (disk : Node) → IsClear (p ++ q) disk → IsClear p disk
unfolding IsClear
IsClear-prefix [] q disk c = tt
IsClear-prefix (a ∷ p) q (file t) c = c
IsClear-prefix (a ∷ p) q (dir es) c = IsClear-prefix p q (child a es) c

pub apart-longer : (p q r : FilePath) → are_apart p q ≡ true → are_apart p (q ++ r) ≡ true
unfolding are_apart
apart-longer [] q r h = absurd (ground arith)
apart-longer (a ∷ p) [] r h = absurd (ground arith)
apart-longer (a ∷ p) (b ∷ q) r h = ground (arith, apart-longer p q r)

pub apart-common : (r p q : FilePath) → are_apart p q ≡ true → are_apart (r ++ p) (r ++ q) ≡ true
unfolding are_apart
apart-common [] p q h = h
apart-common (a ∷ r) p q h = rw (text_eq_refl a) (apart-common r p q h)
