-- ===== src/Bootstrap/RoundTrip.antt =====
-- bootstrapstore.go: restoreBootstrap after bootstrapRecords.
use mamori.Prelude.{
  ◌≡◌, refl, ap, ◌∙◌, Bool, true, false, ◌||◌, Option, none, some, List, [], ◌∷◌, ◌++◌, Text,
  if◌then◌else◌, arith, Map, get, put, get-put, str_eq, str_eq_refl, All, Bool-cases, inl, inr,
}
use mamori.Value.{Time}
use mamori.Resolve.{Resolved, unresolved}
use mamori.Bootstrap.{
  SnapshotRecord, record_of, bootstrap_records, is_expired, index_records, restored_from,
}

-- No field of the list is at the path.
abbrev pub Lacking : Text → List Resolved → Type 0
Lacking p res = All (λ (r : Resolved). str_eq r.spec.path p ≡ false) res

-- A field as a restore gives it: a value, marked sensitive if its spec is, or nothing.
abbrev pub as_restored : Resolved → Resolved
as_restored r =
    if r.set
    then record {
      spec = r.spec;
      value = record r.value {
        sensitive = (r.value.sensitive || r.spec.sensitive) || r.spec.sensitive;
      };
      found = true;
      set = true;
    }
    else unresolved r.spec

module _ (now : Time) where
  -- One field of the list, written to the snapshot or not, and then the rest.
  index_one :
      (r : Resolved) (res : List Resolved) (m : Map SnapshotRecord) {by_path : Map SnapshotRecord}
      → index_records (bootstrap_records (r ∷ res)) now m ≡ some by_path
      → index_records
          (bootstrap_records res)
          now
          (if r.set then put m r.spec.path (record_of r) else m)
        ≡ some by_path
  unfolding bootstrap_records index_records
  index_one r res m {by_path} h = elim (Bool-cases r.set) [
    | inl set ↦
        let h' = rw set at h in
        elim (Bool-cases (is_expired (record_of r) now)) [
          | inl over ↦
              let refused : ◌≡◌ {A = Option (Map SnapshotRecord)} none (some by_path) =
                rw over at h' in
              absurd (ground arith)
          | inr valid ↦ rw set (rw valid at h')
        ]
    | inr unset ↦ rw unset (rw unset at h)
  ]

  other_path :
      (r : Resolved) (m : Map SnapshotRecord) (p : Text)
      → str_eq r.spec.path p ≡ false
      → get (if r.set then put m r.spec.path (record_of r) else m) p ≡ get m p
  unfolding record_of put get
  other_path r m p differs = elim (Bool-cases r.set) [
    | inl set ↦ rw set (get-put m r.spec.path p (record_of r) ∙ rw differs refl)
    | inr unset ↦ rw unset refl
  ]

  nothing_left :
      (m : Map SnapshotRecord) {by_path : Map SnapshotRecord}
      → index_records (bootstrap_records []) now m ≡ some by_path
      → by_path ≡ m
  unfolding index_records bootstrap_records
  nothing_left m h = ground (arith, h)

  index_records-Lacking :
      (res : List Resolved) (m : Map SnapshotRecord) (p : Text) {by_path : Map SnapshotRecord}
      → Lacking p res
      → index_records (bootstrap_records res) now m ≡ some by_path
      → get by_path p ≡ get m p
  index_records-Lacking [] m p a h = ap (λ o. get o p) (nothing_left m h)
  index_records-Lacking (r ∷ res) m p (differs, a) h =
      index_records-Lacking res _ p a (index_one r res m h) ∙ other_path r m p differs

  at_path :
      (r : Resolved) (res : List Resolved) (m : Map SnapshotRecord) {by_path : Map SnapshotRecord}
      → Lacking r.spec.path res
      → get m r.spec.path ≡ none
      → index_records (bootstrap_records (r ∷ res)) now m ≡ some by_path
      → get by_path r.spec.path ≡ (if r.set then some (record_of r) else none)
  at_path r res m {by_path} a free h =
      index_records-Lacking res _ r.spec.path a (index_one r res m h) ∙ own_path r.set
    where
      own_path :
          (b : Bool)
          → get (if b then put m r.spec.path (record_of r) else m) r.spec.path
            ≡ (if b then some (record_of r) else none)
      own_path true =
          get-put m r.spec.path r.spec.path (record_of r) ∙ rw (str_eq_refl r.spec.path) refl
      own_path false = free

  restored_at :
      (front back : List Resolved) (r : Resolved) (m : Map SnapshotRecord)
      {by_path : Map SnapshotRecord}
      → Lacking r.spec.path front
      → Lacking r.spec.path back
      → get m r.spec.path ≡ none
      → index_records (bootstrap_records (front ++ r ∷ back)) now m ≡ some by_path
      → get by_path r.spec.path ≡ (if r.set then some (record_of r) else none)
  restored_at [] back r m f b free h = at_path r back m b free h
  restored_at (x ∷ front) back r m (differs, f) b free h =
      restored_at front back r _ f b (other_path x m r.spec.path differs ∙ free)
        (index_one x (front ++ r ∷ back) m h)

  restored_own :
      (r : Resolved) (b : Bool)
      → restored_from r.spec (if b then some (record_of r) else none) ≡ (
          if b
          then record {
            spec = r.spec;
            value = record r.value {
              sensitive = (r.value.sensitive || r.spec.sensitive) || r.spec.sensitive;
            };
            found = true;
            set = true;
          }
          else unresolved r.spec)
  unfolding restored_from record_of
  restored_own r true = refl
  restored_own r false = refl

  -- A snapshot gives back what it was written from: if no record of it has expired, then every field
  -- whose path no other field has is restored with the bytes, the version, the lease and the
  -- metadata that it had, marked sensitive if its spec is; a field without a value is restored
  -- without one.
  pub restored_from-bootstrap_records :
      (front back : List Resolved) (r : Resolved) (by_path : Map SnapshotRecord)
      → Lacking r.spec.path front
      → Lacking r.spec.path back
      → index_records (bootstrap_records (front ++ r ∷ back)) now [] ≡ some by_path
      → restored_from r.spec (get by_path r.spec.path) ≡ as_restored r
  unfolding get
  restored_from-bootstrap_records front back r by_path f b h =
      ap (restored_from r.spec) (restored_at front back r [] f b refl h) ∙ restored_own r r.set
