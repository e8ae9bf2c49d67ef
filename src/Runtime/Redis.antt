-- ===== src/Runtime/Redis.antt =====
-- The redis client that truepresence/runtime/distributed.py calls, with `json.dumps` and
-- `json.loads`, which write the values that it holds.
use true_presence_ese.Base.{ℕ, suc, ◌≡◌, Option, none, some, List, [], ◌∷◌, ◌++◌, if◌then◌else◌}
use true_presence_ese.Base.Text.{Text, text_eq}
use true_presence_ese.Json.{Value}
use true_presence_ese.Memory.Timeline.{ℤ, slice_from}

-- A command takes the server's state; none stands for an exception.
pub record Redis (N : Type 0) : Type 1 where
  pub Server : Type 0
  pub Written : Type 0
  pub dumps : Value N → Written
  pub loads : Written → Option (Value N)
  pub setex : Text → ℕ → Written → Server → Option Server
  pub get : Text → Server → Option (Option Written)
  pub rpush : Text → Written → Server → Option Server
  pub expire : Text → ℕ → Server → Option Server
  -- `lrange(key, -limit, -1)`
  pub lrange : Text → ℤ → Server → Option (List Written)
  -- `delete(key, key)`
  pub delete : Text → Text → Server → Option Server
  -- `scan_iter(prefix + "*")`
  pub scan_iter : Text → Server → Option (List Text)
  -- `info().get("redis_version", "unknown")`
  pub redis_version : Server → Option Text

-- What a key holds.
pub data Held (W : Type 0) : Type 0 where
  nothing : Held W
  string : W → Held W
  list : List W → Held W

-- The answer of `get`, which refuses a list, and the elements, which a string does not have.
abbrev pub read : {W : Type 0} → Held W → Option (Option W)
read nothing = some none
read (string w) = some (some w)
read (list ws) = none

abbrev pub elements : {W : Type 0} → Held W → Option (List W)
elements nothing = some []
elements (string w) = none
elements (list ws) = some ws

-- A server that answers, over a time in which no key expires. It refuses a lifetime of 0, so the
-- laws are about the others.
pub record IsRedis {N : Type 0} (r : Redis N) : Type 1 where
  pub held : Text → r.Server → Held r.Written
  pub loads-dumps : (v : Value N) → r.loads (r.dumps v) ≡ some v
  pub setex_lem :
      (key : Text) (ttl : ℕ) (w : r.Written) (s : r.Server)
      → (s' : r.Server) × (r.setex key (suc ttl) w s ≡ some s')
        × ((k : Text) → held k s' ≡ (if text_eq key k then string w else held k s))
  pub get_lem : (key : Text) (s : r.Server) → r.get key s ≡ read (held key s)
  pub rpush_lem :
      (key : Text) (w : r.Written) (s : r.Server) (ws : List r.Written)
      → elements (held key s) ≡ some ws
      → (s' : r.Server) × (r.rpush key w s ≡ some s')
        × ((k : Text) → held k s' ≡ (if text_eq key k then list (ws ++ w ∷ []) else held k s))
  pub expire_lem :
      (key : Text) (ttl : ℕ) (s : r.Server)
      → (s' : r.Server) × (r.expire key (suc ttl) s ≡ some s') × ((k : Text) → held k s' ≡ held k s)
  pub lrange_lem :
      (key : Text) (limit : ℤ) (s : r.Server) (ws : List r.Written)
      → elements (held key s) ≡ some ws
      → r.lrange key limit s ≡ some (slice_from limit ws)
  pub delete_lem :
      (key other : Text) (s : r.Server)
      → (s' : r.Server) × (r.delete key other s ≡ some s')
        × ((k : Text)
            → held k s'
              ≡ (if text_eq key k then nothing else if text_eq other k then nothing else held k s))
