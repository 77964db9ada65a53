-- ===== src/CircularArray.antt =====
-- The queue of fixed capacity of src/circular-array.h, a power of two `2 ^ k`. Its parser user
-- keeps two tokens of lookahead in it. A `size_t` has 64 bits; assertions are compiled out.
pub mod Queue
mod Runs
use wasm_sandboxing.Base.{ℕ, zero, suc, ◌+◌, ◌-◌, ◌%◌, ◌^◌, Bool, ◌==◌, if◌then◌else◌, bit_and}

-- `contents_` by position.
pub record CircularArray {ℓ} (A : Type ℓ) : Type ℓ where
  pub contents : ℕ → A
  pub size : ℕ
  pub front : ℕ

-- `blank` is `T()`.
module _ {ℓ} {A : Type ℓ} (k : ℕ) (blank : A) where
  abbrev mask : ℕ
  mask = 2 ^ k - 1

  pub empty_array : CircularArray A
  empty_array = record { contents = λ i. blank; size = 0; front = 0 }

  pub position : CircularArray A → ℕ → ℕ
  position c index = bit_and ((c.front + index) % 2 ^ 64) mask

  pub at : CircularArray A → ℕ → A
  unfolding position
  at c index = c.contents (position c index)

  pub back : CircularArray A → A
  unfolding at
  back c = at c ((c.size + 2 ^ 64 - 1) % 2 ^ 64)

  pub front_item : CircularArray A → A
  unfolding at
  front_item c = at c 0

  abbrev pub set_element : (ℕ → A) → ℕ → A → ℕ → A
  set_element contents i value j = if j == i then value else contents j

  pub pop_back : CircularArray A → CircularArray A
  unfolding position
  pop_back c = record c {
    contents = set_element c.contents (position c ((c.size + 2 ^ 64 - 1) % 2 ^ 64)) blank;
    size = (c.size + 2 ^ 64 - 1) % 2 ^ 64;
  }

  pub pop_front : CircularArray A → CircularArray A
  unfolding position
  pop_front c = record {
    contents = set_element c.contents (position c 0) blank;
    size = (c.size + 2 ^ 64 - 1) % 2 ^ 64;
    front = bit_and ((c.front + 1) % 2 ^ 64) mask;
  }

  pub push_back : CircularArray A → A → CircularArray A
  unfolding position
  push_back c value = record c {
    contents = set_element c.contents (position c c.size) value;
    size = (c.size + 1) % 2 ^ 64;
  }

  -- `while (!empty())`, with the size as fuel, which falls by one each round.
  clear_loop : ℕ → CircularArray A → CircularArray A
  unfolding pop_back
  clear_loop zero c = c
  clear_loop (suc fuel) c =
      let rest = clear_loop fuel (pop_back c) in if c.size == 0 then c else rest

  pub clear : CircularArray A → CircularArray A
  unfolding clear_loop
  clear c = clear_loop c.size c
