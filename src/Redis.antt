-- ===== src/Redis.antt =====
-- The Redis server that the orchestrator talks to, as an interface.
--
-- Redis is no part of the repository: its commands are the fields of a record, with the laws that
-- the documentation of SET NX EX, DEL, EXPIRE, HSET, HINCRBY and SETEX states. `peek s t k` is what the
-- key `k` holds at time `t` if no further command reaches the server `s`. The values that the client
-- library writes as text and the code reads back by `int` or `float` are kept as numbers.
pub mod Client
pub mod Table
pub mod Keeps
pub mod Replies
pub mod Lists
pub mod ListCalls
pub mod Texts
use fastapi_alertengine.Prelude.{
  ℕ, ◌+◌, ◌≤◌, ◌<◌, ◌≡◌, ◌≢◌, String, Bool, true, false, Option, none, some, List, [], ◌∷◌, str_eq,
  if◌then◌else◌,
}

pub data Item : Type 0 where
  text : String → Item
  number : ℕ → Item

abbrev pub Hash : Type 0
Hash = String → Option Item

-- A key holds a string or a hash.
pub data Value : Type 0 where
  plain : Item → Value
  hash : Hash → Value

abbrev pub no_fields : Hash
no_fields f = none

abbrev pub write_field : Hash → String → Item → Hash
write_field m f v g = if str_eq f g then some v else m g

abbrev pub write_fields : Hash → List (String × Item) → Hash
write_fields m [] = m
write_fields m ((f, v) ∷ fs) = write_fields (write_field m f v) fs

-- the fields of what a hash command finds at a key
abbrev pub fields_of : Option Value → Hash
fields_of (some (hash m)) = m
fields_of _ = no_fields

-- `int(raw.get(f, 0))`
abbrev pub count_of : Option Item → ℕ
count_of (some (number n)) = n
count_of _ = 0

pub record Redis : Type 1 where
  pub Server : Type 0
  pub peek : Server → ℕ → String → Option Value
  -- SET k v NX EX ttl
  pub set_nx : ℕ → String → Item → ℕ → Server → Bool × Server
  pub setex : ℕ → String → ℕ → Item → Server → Server
  pub del : ℕ → String → Server → Server
  pub expire : ℕ → String → ℕ → Server → Server
  pub hset : ℕ → String → List (String × Item) → Server → Server
  pub hincrby : ℕ → String → String → Server → ℕ × Server
  -- SET NX writes nothing where the key is there, and writes where it is not.
  pub set_nx_taken :
      (now : ℕ) (k : String) (x : Item) (ttl : ℕ) (s : Server) {v : Value}
      → peek s now k ≡ some v
      → set_nx now k x ttl s ≡ (false, s)
  pub set_nx_free :
      (now : ℕ) (k : String) (x : Item) (ttl : ℕ) (s : Server)
      → peek s now k ≡ none
      → (set_nx now k x ttl s).0 ≡ true
  -- EX and EXPIRE: the key is there for `ttl` and gone after.
  pub set_nx_live :
      (now : ℕ) (k : String) (x : Item) (ttl : ℕ) (s : Server) (t : ℕ)
      → peek s now k ≡ none
      → now ≤ t
      → t < now + ttl
      → peek (set_nx now k x ttl s).1 t k ≡ some (plain x)
  pub set_nx_gone :
      (now : ℕ) (k : String) (x : Item) (ttl : ℕ) (s : Server) (t : ℕ)
      → peek s now k ≡ none
      → now + ttl ≤ t
      → peek (set_nx now k x ttl s).1 t k ≡ none
  pub setex_live :
      (now : ℕ) (k : String) (ttl : ℕ) (x : Item) (s : Server) (t : ℕ)
      → now ≤ t
      → t < now + ttl
      → peek (setex now k ttl x s) t k ≡ some (plain x)
  pub del_gone : (now : ℕ) (k : String) (s : Server) (t : ℕ) → peek (del now k s) t k ≡ none
  pub expire_live :
      (now : ℕ) (k : String) (ttl : ℕ) (s : Server) (t : ℕ) {v : Value}
      → peek s now k ≡ some v
      → now ≤ t
      → t < now + ttl
      → peek (expire now k ttl s) t k ≡ some v
  pub expire_gone :
      (now : ℕ) (k : String) (ttl : ℕ) (s : Server) (t : ℕ)
      → now + ttl ≤ t
      → peek (expire now k ttl s) t k ≡ none
  -- HSET and HINCRBY make the hash where there is none, with no time to live, and keep the time to
  -- live of one that is there.
  pub hset_new :
      (now : ℕ) (k : String) (fs : List (String × Item)) (s : Server) (t : ℕ)
      → peek s now k ≡ none
      → now ≤ t
      → peek (hset now k fs s) t k ≡ some (hash (write_fields no_fields fs))
  pub hset_live :
      (now : ℕ) (k : String) (fs : List (String × Item)) (s : Server) (t : ℕ) (m : Hash)
      → peek s now k ≡ some (hash m)
      → now ≤ t
      → peek s t k ≡ some (hash m)
      → peek (hset now k fs s) t k ≡ some (hash (write_fields m fs))
  pub hincrby_count :
      (now : ℕ) (k : String) (f : String) (s : Server)
      → (hincrby now k f s).0 ≡ count_of (fields_of (peek s now k) f) + 1
  pub hincrby_now :
      (now : ℕ) (k : String) (f : String) (s : Server)
      → peek (hincrby now k f s).1 now k
        ≡ some (
            hash (
              write_field
                (fields_of (peek s now k))
                f
                (number (count_of (fields_of (peek s now k) f) + 1))))
  -- A command touches no key but its own.
  pub set_nx_frame :
      (now : ℕ) (k : String) (x : Item) (ttl : ℕ) (s : Server) (t : ℕ) (j : String)
      → k ≢ j
      → peek (set_nx now k x ttl s).1 t j ≡ peek s t j
  pub setex_frame :
      (now : ℕ) (k : String) (ttl : ℕ) (x : Item) (s : Server) (t : ℕ) (j : String)
      → k ≢ j
      → peek (setex now k ttl x s) t j ≡ peek s t j
  pub del_frame :
      (now : ℕ) (k : String) (s : Server) (t : ℕ) (j : String)
      → k ≢ j
      → peek (del now k s) t j ≡ peek s t j
  pub expire_frame :
      (now : ℕ) (k : String) (ttl : ℕ) (s : Server) (t : ℕ) (j : String)
      → k ≢ j
      → peek (expire now k ttl s) t j ≡ peek s t j
  pub hset_frame :
      (now : ℕ) (k : String) (fs : List (String × Item)) (s : Server) (t : ℕ) (j : String)
      → k ≢ j
      → peek (hset now k fs s) t j ≡ peek s t j
  pub hincrby_frame :
      (now : ℕ) (k : String) (f : String) (s : Server) (t : ℕ) (j : String)
      → k ≢ j
      → peek (hincrby now k f s).1 t j ≡ peek s t j
