-- ===== src/Redis/Lists.antt =====
-- The list commands of the Redis server, as an interface: RPUSH, LPUSH, LTRIM from the front, EXPIRE,
-- DEL and LRANGE, with the laws that their documentation states.
--
-- `items s t k` is the list at key `k` at time `t` if no further command reaches the server; a key
-- that is missing or gone holds the empty list. Keys of lists hold nothing else.
use fastapi_alertengine.Prelude.{
  ℕ, zero, suc, ◌+◌, ◌≤◌, ◌<◌, ◌≡◌, ◌≢◌, refl, ap, ◌∙◌, String, Option, none, some, List, [], ◌∷◌,
  ◌++◌, arith, str_eq, eq_iff, ltb, if◌then◌else◌,
}

-- the first items of a list
abbrev pub first {ℓ} : {A : Type ℓ} → ℕ → List A → List A
first zero xs = []
first (suc n) [] = []
first (suc n) (x ∷ xs) = x ∷ first n xs

pub record RedisLists : Type 1 where
  pub Server : Type 0
  pub items : Server → ℕ → String → List String
  pub rpush : ℕ → String → String → Server → Server
  pub lpush : ℕ → String → String → Server → Server
  -- LTRIM k 0 (n - 1)
  pub ltrim : ℕ → String → ℕ → Server → Server
  pub expire : ℕ → String → ℕ → Server → Server
  pub del : ℕ → String → Server → Server
  pub rpush_now :
      (now : ℕ) (k : String) (x : String) (s : Server)
      → items (rpush now k x s) now k ≡ items s now k ++ x ∷ []
  pub lpush_now :
      (now : ℕ) (k : String) (x : String) (s : Server)
      → items (lpush now k x s) now k ≡ x ∷ items s now k
  pub ltrim_now :
      (now : ℕ) (k : String) (n : ℕ) (s : Server)
      → items (ltrim now k n s) now k ≡ first n (items s now k)
  pub expire_live :
      (now : ℕ) (k : String) (ttl : ℕ) (s : Server) (t : ℕ)
      → now ≤ t
      → t < now + ttl
      → items (expire now k ttl s) t k ≡ items s now k
  pub expire_gone :
      (now : ℕ) (k : String) (ttl : ℕ) (s : Server) (t : ℕ)
      → now + ttl ≤ t
      → items (expire now k ttl s) t k ≡ []
  pub del_gone : (now : ℕ) (k : String) (s : Server) (t : ℕ) → items (del now k s) t k ≡ []
  -- A command touches no key but its own.
  pub rpush_frame :
      (now : ℕ) (k : String) (x : String) (s : Server) (t : ℕ) (j : String)
      → k ≢ j
      → items (rpush now k x s) t j ≡ items s t j
  pub expire_frame :
      (now : ℕ) (k : String) (ttl : ℕ) (s : Server) (t : ℕ) (j : String)
      → k ≢ j
      → items (expire now k ttl s) t j ≡ items s t j

-- A table with deadlines that meets the laws.
abbrev pub Row : Type 0
Row = List String × Option ℕ

abbrev pub Table : Type 0
Table = String → Row

-- the list, and its deadline, if the key is not gone
abbrev pub live : ℕ → Row → Row
live t (xs, none) = (xs, none)
live t (xs, some d) = if ltb t d then (xs, some d) else ([], none)

abbrev pub put : Table → String → Row → Table
put s k r j = if str_eq k j then r else s j

pub put_self : (s : Table) (k : String) (r : Row) → put s k r k ≡ r
put_self s k r = ground (arith, eq_iff k k)

pub put_frame :
    (s : Table) (k : String) (r : Row) (t : ℕ) (j : String)
    → k ≢ j
    → (live t (put s k r j)).0 ≡ (live t (s j)).0
put_frame s k r t j h = ground (arith, eq_iff k j)

write_live : (t : ℕ) (r : Row) (xs : List String) → (live t (xs, (live t r).1)).0 ≡ xs
write_live t (ys, none) xs = refl
write_live t (ys, some d) xs = ground arith

abbrev pub write : ℕ → String → List String → Table → Table
write now k xs s = put s k (xs, (live now (s k)).1)

pub write_now :
    (now : ℕ) (k : String) (xs : List String) (s : Table) → (live now (write now k xs s k)).0 ≡ xs
write_now now k xs s = ap (λ r. (live now r).0) (put_self s k _) ∙ write_live now (s k) xs

pub expire_live :
    (now : ℕ) (k : String) (ttl : ℕ) (s : Table) (t : ℕ)
    → t < now + ttl
    → (live t (put s k ((live now (s k)).0, some (now + ttl)) k)).0 ≡ (live now (s k)).0
expire_live now k ttl s t before = ground (arith, eq_iff k k)

pub expire_gone :
    (now : ℕ) (k : String) (ttl : ℕ) (s : Table) (t : ℕ)
    → now + ttl ≤ t
    → (live t (put s k ((live now (s k)).0, some (now + ttl)) k)).0 ≡ []
expire_gone now k ttl s t after = ground (arith, eq_iff k k)

abbrev pub table : RedisLists
table = record {
  Server = Table;
  items = λ s t k. (live t (s k)).0;
  rpush = λ now k x s. write now k ((live now (s k)).0 ++ x ∷ []) s;
  lpush = λ now k x s. write now k (x ∷ (live now (s k)).0) s;
  ltrim = λ now k n s. write now k (first n (live now (s k)).0) s;
  expire = λ now k ttl s. put s k ((live now (s k)).0, some (now + ttl));
  del = λ now k s. put s k ([], none);
  rpush_now = λ now k x s. write_now now k _ s;
  lpush_now = λ now k x s. write_now now k _ s;
  ltrim_now = λ now k n s. write_now now k _ s;
  expire_live = λ now k ttl s t _ before. expire_live now k ttl s t before;
  expire_gone = λ now k ttl s t after. expire_gone now k ttl s t after;
  del_gone = λ now k s t. ap (λ r. (live t r).0) (put_self s k _);
  rpush_frame = λ now k x s t j h. put_frame s k _ t j h;
  expire_frame = λ now k ttl s t j h. put_frame s k _ t j h;
}
