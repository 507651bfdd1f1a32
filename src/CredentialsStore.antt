-- ===== src/CredentialsStore.antt =====
-- packages/data-layer/src/credentials-store.ts: reading the credentials of a session, and giving back the keys
-- of an instance. The encrypted store and Redis are third-party code.
mod Purge
mod Tests
use sockethub.Base.{
  ℕ, ◌+◌, Bool, true, false, ◌||◌, List, [], ◌∷◌, ◌++◌, Option, none, some, if◌then◌else◌, Text,
  codes, nat_eq, text_eq, ◌==◌, ◌⊎◌, inl, inr,
}
use sockethub.Base.Table.{Table, delete, has}
use sockethub.Identity.{truthy, build_credentials_store_id}
use sockethub.Escapes.{flat}

-- The `object` of credentials; `absent` is missing or null.
pub data Secrets : Type 0 where
  absent : Secrets
  scalar : Text → Secrets
  array : List Text → Secrets
  fields : Table Text Text → Secrets

pub record Credentials : Type 0 where
  pub actor : Text
  pub object : Secrets

abbrev pub is_usable : Secrets → Bool
is_usable absent = false
is_usable (scalar s) = false
is_usable (array xs) = false
is_usable (fields []) = false
is_usable (fields (kv ∷ kvs)) = true

abbrev pub not_found : Text → Text
not_found actor = codes "credentials not found for " ++ actor

abbrev pub invalid : Text → Text
invalid actor = codes "invalid credentials for " ++ actor

module _ (object_hash : Secrets → Text) where
  -- `if (credentialsHash && …)`.
  abbrev pub is_other : Option Text → Secrets → Bool
  is_other none object = false
  is_other (some []) object = false
  is_other (some (c ∷ hash)) object = if (c ∷ hash) == object_hash object then false else true

  -- `get`, with what the store has under the key; `inl` is an exception.
  unfoldable pub credentials_get : Text → Option Text → Option Credentials → Text ⊎ Credentials
  credentials_get actor hash none = inl (not_found actor)
  credentials_get actor hash (some found) =
      if is_usable found.object
      then (if is_other hash found.object then inl (invalid actor) else inr found)
      else inl (invalid actor)

-- `escapeRedisGlob`.
abbrev pub is_glob : ℕ → Bool
is_glob c = c == 92 || (c == b'*' || (c == b'?' || (c == b'[' || c == b']')))

abbrev pub glob_code : ℕ → Text
glob_code c = if is_glob c then 92 ∷ c ∷ [] else c ∷ []

unfoldable pub escape_redis_glob : Text → Text
escape_redis_glob value = flat glob_code value

unfoldable pub purge_pattern : Text → Text
purge_pattern parent_id = escape_redis_glob (build_credentials_store_id parent_id []) ++ b'*' ∷ []

-- `client.del(key)` of the keys of one page, and how many keys went.
unfoldable pub purge_page {ℓ} : {V : Type ℓ} → List Text → Table Text V × ℕ → Table Text V × ℕ
purge_page [] done = done
purge_page (key ∷ keys) (store, removed) =
    purge_page keys (delete key store, if has key store then removed + 1 else removed)

-- `purgeCredentialsStoreKeys`, with the pages that `client.scan` answers until its cursor is "0" again.
unfoldable pub purge_keys {ℓ} :
    {V : Type ℓ} → List (List Text) → Table Text V × ℕ → Table Text V × ℕ
purge_keys [] done = done
purge_keys (keys ∷ pages) done = purge_keys pages (purge_page keys done)
