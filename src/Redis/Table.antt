-- ===== src/Redis/Table.antt =====
-- A table with deadlines that meets the laws of the Redis interface.
use fastapi_alertengine.Prelude.{
  ℕ, ◌+◌, ◌≤◌, ◌<◌, ◌≡◌, ◌≢◌, refl, ap, ◌∙◌, String, Bool, true, false, Option, none, some, List,
  arith, str_eq, eq_iff, ltb, if◌then◌else◌,
}
use fastapi_alertengine.Redis.{
  Item, number, Hash, Value, plain, hash, no_fields, write_field, write_fields, fields_of, count_of,
  Redis,
}

-- A value and the time at which it is gone, if there is one.
abbrev Row : Type 0
Row = Value × Option ℕ

abbrev pub Table : Type 0
Table = String → Option Row

abbrev alive : ℕ → Option Row → Option Value
alive t none = none
alive t (some (v, none)) = some v
alive t (some (v, some d)) = if ltb t d then some v else none

abbrev until : ℕ → Option Row → Option ℕ
until t none = none
until t (some (v, none)) = none
until t (some (v, some d)) = if ltb t d then some d else none

abbrev put : Table → String → Option Row → Table
put s k r j = if str_eq k j then r else s j

abbrev pub peek : Table → ℕ → String → Option Value
peek s t k = alive t (s k)

abbrev set_nx : ℕ → String → Item → ℕ → Table → Bool × Table
set_nx now k x ttl s = elim (peek s now k) [
  | some v ↦ (false, s)
  | none ↦ (true, put s k (some (plain x, some (now + ttl))))
]

abbrev setex : ℕ → String → ℕ → Item → Table → Table
setex now k ttl x s = put s k (some (plain x, some (now + ttl)))

abbrev del : ℕ → String → Table → Table
del now k s = put s k none

abbrev expire : ℕ → String → ℕ → Table → Table
expire now k ttl s = elim (peek s now k) [
  | none ↦ put s k none
  | some v ↦ put s k (some (v, some (now + ttl)))
]

abbrev hset : ℕ → String → List (String × Item) → Table → Table
hset now k fs s =
    put s k (some (hash (write_fields (fields_of (peek s now k)) fs), until now (s k)))

abbrev hincrby : ℕ → String → String → Table → ℕ × Table
hincrby now k f s =
    let m = fields_of (peek s now k) in
    let n = count_of (m f) + 1 in
    (n, put s k (some (hash (write_field m f (number n)), until now (s k))))

pub put_self : (s : Table) (k : String) (r : Option Row) → put s k r k ≡ r
put_self s k r = ground (arith, eq_iff k k)

put_frame : (s : Table) (k : String) (r : Option Row) (j : String) → k ≢ j → put s k r j ≡ s j
put_frame s k r j h = ground (arith, eq_iff k j)

-- The row that a hash command leaves.
abbrev hash_row : ℕ → Option Row → Hash → Option Row
hash_row now r m = some (hash m, until now r)

hash_row_new :
    (now t : ℕ) (r : Option Row) (m : Hash)
    → alive now r ≡ none
    → alive t (hash_row now r m) ≡ some (hash m)
hash_row_new now t none m h = refl
hash_row_new now t (some (v, none)) m h = cc
hash_row_new now t (some (v, some d)) m h = ground arith

hash_row_live :
    (now t : ℕ) (r : Option Row) {a b : Value} (m : Hash)
    → alive now r ≡ some a
    → alive t r ≡ some b
    → alive t (hash_row now r m) ≡ some (hash m)
hash_row_live now t none m h h' = cc
hash_row_live now t (some (v, none)) m h h' = refl
hash_row_live now t (some (v, some d)) m h h' = ground arith

pub hash_row_now :
    (now : ℕ) (r : Option Row) (m : Hash) → alive now (hash_row now r m) ≡ some (hash m)
hash_row_now now none m = refl
hash_row_now now (some (v, none)) m = refl
hash_row_now now (some (v, some d)) m = ground arith

module _ (now : ℕ) (k : String) (s : Table) (t : ℕ) where
  pub set_nx_live :
      (x : Item) (ttl : ℕ)
      → peek s now k ≡ none
      → t < now + ttl
      → peek (set_nx now k x ttl s).1 t k ≡ some (plain x)
  set_nx_live x ttl free before = ground (arith, eq_iff k k)

  pub set_nx_gone :
      (x : Item) (ttl : ℕ)
      → peek s now k ≡ none
      → now + ttl ≤ t
      → peek (set_nx now k x ttl s).1 t k ≡ none
  set_nx_gone x ttl free after = ground (arith, eq_iff k k)

  pub setex_live :
      (ttl : ℕ) (x : Item) → t < now + ttl → peek (setex now k ttl x s) t k ≡ some (plain x)
  setex_live ttl x before = ground (arith, eq_iff k k)

  pub expire_live :
      (ttl : ℕ) {v : Value}
      → peek s now k ≡ some v
      → t < now + ttl
      → peek (expire now k ttl s) t k ≡ some v
  expire_live ttl there before = ground (arith, eq_iff k k)

  pub expire_gone : (ttl : ℕ) → now + ttl ≤ t → peek (expire now k ttl s) t k ≡ none
  expire_gone ttl after = ground (arith, eq_iff k k)

  pub hset_new :
      (fs : List (String × Item))
      → peek s now k ≡ none
      → peek (hset now k fs s) t k ≡ some (hash (write_fields no_fields fs))
  hset_new fs free =
      ap (alive t) (put_self s k _)
      ∙ hash_row_new now t (s k) _ free
      ∙ ap (λ o. some (hash (write_fields (fields_of o) fs))) free

  pub hset_live :
      (fs : List (String × Item)) (m : Hash)
      → peek s now k ≡ some (hash m)
      → peek s t k ≡ some (hash m)
      → peek (hset now k fs s) t k ≡ some (hash (write_fields m fs))
  hset_live fs m there later =
      ap (alive t) (put_self s k _)
      ∙ hash_row_live now t (s k) _ there later
      ∙ ap (λ o. some (hash (write_fields (fields_of o) fs))) there

pub frame :
    (s : Table) (k : String) (r : Option Row) (t : ℕ) (j : String)
    → k ≢ j
    → alive t (put s k r j) ≡ peek s t j
frame s k r t j h = ap (alive t) (put_frame s k r j h)

pub expire_frame :
    (now : ℕ) (k : String) (ttl : ℕ) (s : Table) (t : ℕ) (j : String)
    → k ≢ j
    → peek (expire now k ttl s) t j ≡ peek s t j
expire_frame now k ttl s t j h = ground (arith, eq_iff k j)

pub set_nx_frame :
    (now : ℕ) (k : String) (x : Item) (ttl : ℕ) (s : Table) (t : ℕ) (j : String)
    → k ≢ j
    → peek (set_nx now k x ttl s).1 t j ≡ peek s t j
set_nx_frame now k x ttl s t j h = ground (arith, eq_iff k j)

pub set_nx_taken :
    (now : ℕ) (k : String) (x : Item) (ttl : ℕ) (s : Table) {v : Value}
    → peek s now k ≡ some v
    → set_nx now k x ttl s ≡ (false, s)
set_nx_taken now k x ttl s there = ground arith

pub set_nx_free :
    (now : ℕ) (k : String) (x : Item) (ttl : ℕ) (s : Table)
    → peek s now k ≡ none
    → (set_nx now k x ttl s).0 ≡ true
set_nx_free now k x ttl s free = ground arith

abbrev pub table : Redis
table = record {
  Server = Table;
  peek = peek;
  set_nx = set_nx;
  setex = setex;
  del = del;
  expire = expire;
  hset = hset;
  hincrby = hincrby;
  set_nx_taken = set_nx_taken;
  set_nx_free = set_nx_free;
  set_nx_live = λ now k x ttl s t free _ before. set_nx_live now k s t x ttl free before;
  set_nx_gone = λ now k x ttl s t free after. set_nx_gone now k s t x ttl free after;
  setex_live = λ now k ttl x s t _ before. setex_live now k s t ttl x before;
  del_gone = λ now k s t. ap (alive t) (put_self s k none);
  expire_live = λ now k ttl s t there _ before. expire_live now k s t ttl there before;
  expire_gone = λ now k ttl s t after. expire_gone now k s t ttl after;
  hset_new = λ now k fs s t free _. hset_new now k s t fs free;
  hset_live = λ now k fs s t m there _ later. hset_live now k s t fs m there later;
  hincrby_count = λ now k f s. refl;
  hincrby_now = λ now k f s. ap (alive now) (put_self s k _) ∙ hash_row_now now (s k) _;
  set_nx_frame = set_nx_frame;
  setex_frame = λ now k ttl x s t j h. frame s k _ t j h;
  del_frame = λ now k s t j h. frame s k none t j h;
  expire_frame = expire_frame;
  hset_frame = λ now k fs s t j h. frame s k _ t j h;
  hincrby_frame = λ now k f s t j h. frame s k _ t j h;
}
