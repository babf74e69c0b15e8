-- ===== src/Directory/Deleted/Dots.antt =====
-- src/fat_directory.rs: the two dot entries that open a directory, and the test for them.
use taphonomy.Prelude.{
  ℕ, true, false, none, some, List, [], ◌∷◌, ◌==◌, bytes_eq, arith, ◌≡◌, refl, ◌≢◌, ==→≡,
  bytes_eq→≡, bytes_eq_refl, ==_refl,
}
use taphonomy.Directory.Entry.{Entry, EntryKind}
use taphonomy.Directory.Deleted.{
  dot_name, dot_dot_name, in_use, is_dot_of, is_dot_dot, names_itself, names_parent, check_dots,
}

-- A live directory entry of that raw name.
abbrev pub IsDirectoryNamed : List ℕ → EntryKind → Type 0
IsDirectoryNamed wanted (EntryKind.short_name name raw true first size nt) = raw ≡ wanted
IsDirectoryNamed wanted kind = ⊥

-- A live directory entry of that raw name, whose first cluster is the given one.
abbrev pub IsDirectoryAt : List ℕ → ℕ → EntryKind → Type 0
IsDirectoryAt wanted cluster (EntryKind.short_name name raw true first size nt) =
    (raw ≡ wanted) × (first ≡ cluster)
IsDirectoryAt wanted cluster kind = ⊥

is_dot_of-IsDirectoryAt :
    (kind : EntryKind) (cluster : ℕ)
    → is_dot_of kind cluster ≡ true
    → IsDirectoryAt dot_name cluster kind
unfolding is_dot_of
is_dot_of-IsDirectoryAt (EntryKind.short_name name raw true first size nt) cluster h =
    let parts : (bytes_eq raw dot_name ≡ true) × ((first == cluster) ≡ true) = ground arith in
    (bytes_eq→≡ raw dot_name parts.0, ==→≡ first cluster parts.1)
is_dot_of-IsDirectoryAt (EntryKind.short_name name raw false first size nt) cluster h = cc
is_dot_of-IsDirectoryAt EntryKind.terminator cluster h = cc
is_dot_of-IsDirectoryAt (EntryKind.deleted was) cluster h = cc
is_dot_of-IsDirectoryAt (EntryKind.long_name o l c) cluster h = cc
is_dot_of-IsDirectoryAt (EntryKind.volume_label n raw) cluster h = cc
is_dot_of-IsDirectoryAt (EntryKind.invalid a) cluster h = cc

is_dot_dot-IsDirectoryNamed :
    (kind : EntryKind) → is_dot_dot kind ≡ true → IsDirectoryNamed dot_dot_name kind
unfolding is_dot_dot
is_dot_dot-IsDirectoryNamed (EntryKind.short_name name raw true first size nt) h =
    bytes_eq→≡ raw dot_dot_name h
is_dot_dot-IsDirectoryNamed (EntryKind.short_name name raw false first size nt) h = cc
is_dot_dot-IsDirectoryNamed EntryKind.terminator h = cc
is_dot_dot-IsDirectoryNamed (EntryKind.deleted was) h = cc
is_dot_dot-IsDirectoryNamed (EntryKind.long_name o l c) h = cc
is_dot_dot-IsDirectoryNamed (EntryKind.volume_label n raw) h = cc
is_dot_dot-IsDirectoryNamed (EntryKind.invalid a) h = cc

-- The listing opens with the entries "." and "..", in the first two slots, and "." points at the
-- cluster itself.
abbrev pub OpensWithDots : List Entry → ℕ → Type 0
OpensWithDots [] cluster = ⊥
OpensWithDots (self ∷ []) cluster = ⊥
OpensWithDots (self ∷ parent ∷ rest) cluster =
    (self.slot ≡ 0)
    × IsDirectoryAt dot_name cluster self.kind
    × (parent.slot ≡ 1)
    × IsDirectoryNamed dot_dot_name parent.kind

pub check_dots-OpensWithDots :
    (entries : List Entry) (cluster : ℕ)
    → check_dots entries cluster ≡ none
    → OpensWithDots entries cluster
unfolding check_dots names_itself names_parent
check_dots-OpensWithDots [] cluster h = cc
check_dots-OpensWithDots (self ∷ []) cluster h = ground arith
check_dots-OpensWithDots (self ∷ parent ∷ rest) cluster h =
    let facts : ((self.slot == 0) ≡ true)
        × (is_dot_of self.kind cluster ≡ true)
        × ((parent.slot == 1) ≡ true)
        × (is_dot_dot parent.kind ≡ true) =
      ground arith in
    (
      ==→≡ self.slot 0 facts.0,
      is_dot_of-IsDirectoryAt self.kind cluster facts.1,
      ==→≡ parent.slot 1 facts.2,
      is_dot_dot-IsDirectoryNamed parent.kind facts.3,
    )

IsDirectoryAt-is_dot_of :
    (kind : EntryKind) (cluster : ℕ)
    → IsDirectoryAt dot_name cluster kind
    → is_dot_of kind cluster ≡ true
unfolding is_dot_of
IsDirectoryAt-is_dot_of (EntryKind.short_name name raw true first size nt) cluster (named, at) =
    rw (named, at, bytes_eq_refl dot_name, ==_refl cluster) refl
IsDirectoryAt-is_dot_of EntryKind.terminator cluster named = elim named [ ]
IsDirectoryAt-is_dot_of (EntryKind.deleted was) cluster named = elim named [ ]
IsDirectoryAt-is_dot_of (EntryKind.long_name o l c) cluster named = elim named [ ]
IsDirectoryAt-is_dot_of (EntryKind.volume_label n raw) cluster named = elim named [ ]
IsDirectoryAt-is_dot_of (EntryKind.short_name name raw false first size nt) cluster named =
    elim named [ ]
IsDirectoryAt-is_dot_of (EntryKind.invalid a) cluster named = elim named [ ]

IsDirectoryNamed-is_dot_dot :
    (kind : EntryKind) → IsDirectoryNamed dot_dot_name kind → is_dot_dot kind ≡ true
unfolding is_dot_dot
IsDirectoryNamed-is_dot_dot (EntryKind.short_name name raw true first size nt) named =
    rw (named, bytes_eq_refl dot_dot_name) refl
IsDirectoryNamed-is_dot_dot EntryKind.terminator named = elim named [ ]
IsDirectoryNamed-is_dot_dot (EntryKind.deleted was) named = elim named [ ]
IsDirectoryNamed-is_dot_dot (EntryKind.long_name o l c) named = elim named [ ]
IsDirectoryNamed-is_dot_dot (EntryKind.volume_label n raw) named = elim named [ ]
IsDirectoryNamed-is_dot_dot (EntryKind.short_name name raw false first size nt) named =
    elim named [ ]
IsDirectoryNamed-is_dot_dot (EntryKind.invalid a) named = elim named [ ]

pub OpensWithDots-check_dots :
    (entries : List Entry) (cluster : ℕ)
    → OpensWithDots entries cluster
    → check_dots entries cluster ≡ none
unfolding check_dots names_itself names_parent
OpensWithDots-check_dots [] cluster opens = elim opens [ ]
OpensWithDots-check_dots (self ∷ []) cluster opens = elim opens [ ]
OpensWithDots-check_dots (self ∷ parent ∷ rest) cluster (at_0, dot, at_1, dot_dot) =
    rw
      (
        at_0,
        at_1,
        IsDirectoryAt-is_dot_of self.kind cluster dot,
        IsDirectoryNamed-is_dot_dot parent.kind dot_dot,
      )
      refl

pub check_dots-ne-in_use :
    (entries : List Entry) (cluster value : ℕ) → check_dots entries cluster ≢ some (in_use value)
unfolding check_dots
check_dots-ne-in_use [] cluster value h = cc
check_dots-ne-in_use (self ∷ []) cluster value h = ground arith
check_dots-ne-in_use (self ∷ parent ∷ rest) cluster value h = ground arith
