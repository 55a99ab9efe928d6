-- ===== src/Schedule/Storage.antt =====
-- storage.go: the registry of rooms, in memory or in Redis.
use vchamber.Prelude.{
  ℤ, pos, int_eq, ◌≡◌, ◌≢◌, refl, List, [], ◌∷◌, Option, none, some, String, if◌then◌else◌, str_eq,
  str_eq_self, str_eq_ne, GoMap, lookup, insert, delete, lookup-insert, sym, ◌*◌,
}
use vchamber.Wire.{Duration, second}

abbrev pub Error : Type 0
Error = String

abbrev pub StorageBackendType : Type 0
StorageBackendType = ℤ

abbrev pub storage_backend_mem : StorageBackendType
storage_backend_mem = pos 0

abbrev pub storage_backend_redis : StorageBackendType
storage_backend_redis = pos 1

abbrev pub redis_entry_ttl : Duration
redis_entry_ttl = 300 * second

abbrev pub redis_client_normal : String
redis_client_normal = "normal"

abbrev pub redis_client_sentinel : String
redis_client_sentinel = "sentinel"

-- The interface Storage over a state S. ReadOnlyStorage is its part without set and del.
pub record Storage (S : Type 0) : Type 0 where
  pub backend_type : StorageBackendType
  pub get : S → String → String × Option Error
  pub set : S → String → String → S × Option Error
  pub del : S → String → S × Option Error

-- What the users of a registry rely on.
pub record StorageLaws {S : Type 0} (store : Storage S) : Type 0 where
  pub get-set :
      (s : S) (k v : String)
      → (store.set s k v).1 ≡ none
      → store.get (store.set s k v).0 k ≡ (v, none)
  pub get-set_ne :
      (s : S) (k j v : String)
      → (store.set s k v).1 ≡ none
      → j ≢ k
      → store.get (store.set s k v).0 j ≡ store.get s j

-- b.m[k]: the zero value for a missing key.
abbrev value_or_empty : Option String → String
value_or_empty none = ""
value_or_empty (some v) = v

mem_get : GoMap String → String → String × Option Error
mem_get m k = (value_or_empty (lookup k m), none)

mem_set : GoMap String → String → String → GoMap String × Option Error
mem_set m k v = (insert k v m, none)

mem_del : GoMap String → String → GoMap String × Option Error
mem_del m k = (delete k m, none)

unfoldable pub mem_backend : Storage (GoMap String)
unfolding mem_get mem_set mem_del
mem_backend = record {
  backend_type = storage_backend_mem;
  get = mem_get;
  set = mem_set;
  del = mem_del;
}

-- The Redis client: its commands on a state R, and the two ways to make one.
pub record RedisClient (R : Type 0) : Type 0 where
  pub get : R → String → String × Option Error
  pub set : R → String → String → Duration → R × Option Error
  pub del : R → String → R × Option Error
  pub ping : R → Option Error
  pub new_client : String → R
  pub new_failover_client : String → List String → R

unfoldable pub redis_backend : {R : Type 0} → RedisClient R → Storage R
redis_backend client = record {
  backend_type = storage_backend_redis;
  get = client.get;
  set = λ r k v. client.set r k v redis_entry_ttl;
  del = client.del;
}

-- A storage of either kind, with its state.
pub data Backend (R : Type 0) : Type 0 where
  mem : GoMap String → Backend R
  redis : R → Backend R

pub data NewBackend (R : Type 0) : Type 0 where
  made : Backend R → NewBackend R
  refused : Error → NewBackend R

-- NewRedisStorage: an existing client as a storage.
unfoldable pub new_redis_storage : {R : Type 0} → R → Backend R
new_redis_storage c = redis c

module _ {R : Type 0} (client : RedisClient R) where
  check_ping : R → Option Error → NewBackend R
  check_ping r none = made (redis r)
  check_ping r (some e) = refused "Redis backend: failed to connect to redis master"

  new_redis : List String → NewBackend R
  unfolding check_ping
  new_redis [] = refused "Redis backend requires at least two arguments"
  new_redis (kind ∷ []) = refused "Redis backend requires at least two arguments"
  new_redis (kind ∷ addr ∷ rest) =
      if str_eq kind redis_client_normal
      then (let r = client.new_client addr in check_ping r (client.ping r))
      else if str_eq kind redis_client_sentinel
      then (let r = client.new_failover_client "mymaster" (addr ∷ []) in
          check_ping r (client.ping r))
      else refused "Redis backend: invalid argument"

  unfoldable pub new_storage_backend : StorageBackendType → List String → NewBackend R
  unfolding new_redis
  new_storage_backend typ args =
      if int_eq typ storage_backend_mem
      then made (mem [])
      else if int_eq typ storage_backend_redis
      then new_redis args
      else refused "Unsupported backend type"

mem-get-set : (m : GoMap String) (k v : String) → mem_get (mem_set m k v).0 k ≡ (v, none)
unfolding mem_get mem_set
mem-get-set m k v = rw (lookup-insert k k v m) (rw (str_eq_self k) refl)

mem-get-set_ne :
    (m : GoMap String) (k j v : String) → j ≢ k → mem_get (mem_set m k v).0 j ≡ mem_get m j
unfolding mem_get mem_set
mem-get-set_ne m k j v n = rw (lookup-insert k j v m) (rw (str_eq_ne k j (λ e. n (sym e))) refl)

-- The registry in memory keeps what the users of a registry rely on.
pub mem_backend-StorageLaws : StorageLaws mem_backend
unfolding mem_backend
mem_backend-StorageLaws = record {
  get-set = λ m k v e. mem-get-set m k v;
  get-set_ne = λ m k j v e n. mem-get-set_ne m k j v n;
}
