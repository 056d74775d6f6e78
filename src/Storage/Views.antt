-- ===== src/Storage/Views.antt =====
-- The finders of src/storage.rs read off the entries of a sound database.
use dse.Base.{
  ℕ, ◌≡◌, ◌≢◌, refl, List, [], ◌∷◌, map, Option, none, some, if◌then◌else◌, find, Result, ok, err,
  or_err, unwrap, ◌>>=◌, not_found, decode_failed, arith, ◌^◌, ◌<◌, ◌==◌,
}
use dse.Base.Bytes.{Bytes, id_key_eq}
use dse.Base.Trees.{put, lookup, lookup-put}
use dse.Backend.{Backend, Codec, RoundTrip, IsSound}
use dse.Storage.{store, has_key, decode_found, unwrap_found, id_key}

module _ {Blob : Type 0} where
  abbrev pub entry_of : Bytes → Option Blob → Option (Option (Bytes × Blob))
  entry_of k none = none
  entry_of k (some v) = some (some (k, v))

  pub find-has_key :
      (k : Bytes) (m : List (Bytes × Blob))
      → find (has_key k) (map some m) ≡ entry_of k (lookup k m)
  unfolding find lookup
  find-has_key k [] = refl
  find-has_key k ((j, w) ∷ m) = ground (arith, find-has_key k m)

  module _ {A : Type 0} (c : Codec Blob A) where
    abbrev pub decode_value : Option Blob → Result A
    decode_value none = err not_found
    decode_value (some v) = or_err (c.deserialize v) decode_failed

    abbrev pub unwrap_value : Option Blob → Result (Option A)
    unwrap_value none = ok none
    unwrap_value (some v) = unwrap (c.deserialize v) >>= λ a. ok (some a)

    pub decode_found-entry_of :
        (k : Bytes) (o : Option Blob) → decode_found c (entry_of k o) ≡ decode_value o
    decode_found-entry_of k none = refl
    decode_found-entry_of k (some v) = refl

    pub unwrap_found-entry_of :
        (k : Bytes) (o : Option Blob) → unwrap_found c (entry_of k o) ≡ unwrap_value o
    unwrap_found-entry_of k none = refl
    unwrap_found-entry_of k (some v) = refl

module _ ⦃e : Backend⦄ (s : IsSound e) where
  pub store_lem : (d : e.Db) (t k : Bytes) (v : e.Blob) → store d t k v ≡ s.inserted d t k v
  store_lem d t k v = ground (arith, s.insert_lem d t k v)

  -- The value of a key of a tree.
  abbrev pub value_at : e.Db → Bytes → Bytes → Option e.Blob
  value_at d t k = lookup k (s.entries d t)

  pub entries-store_same :
      (d : e.Db) (t k : Bytes) (v : e.Blob) → s.entries (store d t k v) t ≡ put k v (s.entries d t)
  entries-store_same d t k v = rw (store_lem d t k v) (s.entries_same d t k v)

  pub entries-store_other :
      (d : e.Db) (t k : Bytes) (v : e.Blob) (t' : Bytes)
      → t ≢ t'
      → s.entries (store d t k v) t' ≡ s.entries d t'
  entries-store_other d t k v t' h = rw (store_lem d t k v) (s.entries_other d t k v t' h)

  pub find-iter :
      (d : e.Db) (t k : Bytes) → find (has_key k) (e.iter d t) ≡ entry_of k (value_at d t k)
  find-iter d t k = rw (s.iter_lem d t) (find-has_key k (s.entries d t))

  module _ {A : Type 0} (c : Codec e.Blob A) where
    pub decode-find :
        (d : e.Db) (t k : Bytes)
        → decode_found c (find (has_key k) (e.iter d t)) ≡ decode_value c (value_at d t k)
    decode-find d t k = rw (find-iter d t k) (decode_found-entry_of c k (value_at d t k))

    pub unwrap-find :
        (d : e.Db) (t k : Bytes)
        → unwrap_found c (find (has_key k) (e.iter d t)) ≡ unwrap_value c (value_at d t k)
    unwrap-find d t k = rw (find-iter d t k) (unwrap_found-entry_of c k (value_at d t k))

    -- A search by a 32-bit id after a record was stored under one.
    pub decode-find-store :
        (d : e.Db) (t : Bytes) (i j : ℕ) (a : A)
        → RoundTrip c
        → i < 2 ^ 32
        → j < 2 ^ 32
        → decode_found c
            (find (has_key (id_key j)) (e.iter (store d t (id_key i) (c.serialize a)) t))
          ≡ (if i == j then ok a else decode_found c (find (has_key (id_key j)) (e.iter d t)))
    decode-find-store d t i j a round hi hj = ground (
      arith,
      decode-find d t (id_key j),
      decode-find (store d t (id_key i) (c.serialize a)) t (id_key j),
      entries-store_same d t (id_key i) (c.serialize a),
      lookup-put (id_key i) (id_key j) (c.serialize a) (s.entries d t),
      id_key_eq i j hi hj,
      round a,
    )

    -- A search in a tree that was not written.
    pub decode-find-store_other :
        (d : e.Db) (t t' k j : Bytes) (v : e.Blob)
        → t ≢ t'
        → decode_found c (find (has_key j) (e.iter (store d t k v) t'))
          ≡ decode_found c (find (has_key j) (e.iter d t'))
    decode-find-store_other d t t' k j v ne = ground (
      arith,
      decode-find d t' j,
      decode-find (store d t k v) t' j,
      entries-store_other d t k v t' ne,
    )
