-- ===== src/BinaryReader/Memories.antt =====
-- The limits that `ReadMemory` accepts (src/binary-reader.cc).
use wasm_sandboxing.Base.{ℕ, ◌≡◌, refl, subst, Bool, true, false, ◌&&◌, ◌||◌, not, leb}
use wasm_sandboxing.BinaryReader.State.{
  Reader, M, Outcome, ok, failed, no_fuel, continue, ◌>>=◌, ◌>>◌, fail, error_unless, Limits,
}
use wasm_sandboxing.BinaryReader.Read.{
  read_u32_leb, read_memory_max, read_memory, has_flag, max_pages,
}

-- What a method returns, if it returns.
abbrev Holds : {A : Type 0} → (A → Type 0) → Outcome A × Reader → Type 0
Holds P (ok a, s) = P a
Holds P (failed, s) = Unit {0}
Holds P (no_fuel, s) = Unit {0}

record Gives {A : Type 0} (P : A → Type 0) (m : M A) : Type 0 where
  run : (r : Reader) → Holds P (m r)

Holds-continue :
    {A B : Type 0} (Q : A → Type 0) (P : B → Type 0) (f : A → M B) (x : Outcome A × Reader)
    → Holds Q x
    → ((a : A) → Q a → Gives P (f a))
    → Holds P (continue f x)
Holds-continue Q P f (ok a, s) q g = (g a q).run s
Holds-continue Q P f (failed, s) q g = tt
Holds-continue Q P f (no_fuel, s) q g = tt

Gives-bind :
    {A B : Type 0} (Q : A → Type 0) (P : B → Type 0) (m : M A) (f : A → M B)
    → Gives Q m
    → ((a : A) → Q a → Gives P (f a))
    → Gives P (m >>= f)
Gives-bind Q P m f q g = record { run = λ r. Holds-continue Q P f (m r) (q.run r) g }

Holds-any : {A : Type 0} (x : Outcome A × Reader) → Holds (λ a. Unit {0}) x
Holds-any (ok a, s) = tt
Holds-any (failed, s) = tt
Holds-any (no_fuel, s) = tt

-- A method of whose value nothing is needed.
Gives-after :
    {A B : Type 0} (P : B → Type 0) (m : M A) (f : A → M B)
    → ((a : A) → Gives P (f a))
    → Gives P (m >>= f)
Gives-after P m f g =
    Gives-bind (λ a. Unit {0}) P m f (record { run = λ r. Holds-any (m r) }) (λ a u. g a)

Gives-error_unless :
    {B : Type 0} (P : B → Type 0) (b : Bool) (k : M B)
    → (b ≡ true → Gives P k)
    → Gives P (error_unless b >> k)
unfolding error_unless fail
Gives-error_unless P true k g = record { run = (g refl).run }
Gives-error_unless P false k g = record { run = λ r. tt }

abbrev max_is_valid : Bool → ℕ → ℕ → Bool
max_is_valid has_max initial max = leb max max_pages && (not has_max || leb initial max)

-- At most 65536 pages, from the initial to the maximal number if there is one, as there is for a
-- shared memory.
abbrev pub is_valid_memory : Limits → Bool
is_valid_memory limits =
    leb limits.initial max_pages
    && max_is_valid limits.has_max limits.initial limits.max
    && (not limits.is_shared || limits.has_max)

read_memory_max-Gives :
    (has_max : Bool) (initial : ℕ)
    → Gives (λ max. max_is_valid has_max initial max ≡ true) (read_memory_max has_max initial)
unfolding read_memory_max
read_memory_max-Gives true initial = Gives-after _ read_u32_leb _ λ max.
    Gives-error_unless _ (leb max max_pages) _
      λ a. Gives-error_unless _ (leb initial max) _ λ b. record { run = λ r. rw (a, b) refl }
read_memory_max-Gives false initial = record { run = λ r. refl }

read_memory-Gives : Gives (λ limits. is_valid_memory limits ≡ true) read_memory
unfolding read_memory
read_memory-Gives = Gives-after _ read_u32_leb _ λ flags. Gives-after _ read_u32_leb _ λ initial.
    Gives-error_unless _ (leb initial max_pages) _ λ a.
      Gives-error_unless _ (not (has_flag flags 2) || has_flag flags 1) _ λ b.
        Gives-bind (λ max. max_is_valid (has_flag flags 1) initial max ≡ true) _
          (read_memory_max (has_flag flags 1) initial) _
          (read_memory_max-Gives (has_flag flags 1) initial)
          λ max c. record { run = λ r. rw (a, b, c) refl }

-- The limits that `ReadMemory` returns are of at most 65536 pages, a maximum is not below the
-- initial size, and a shared memory has one.
pub read_memory-is_valid :
    (r s : Reader) (limits : Limits)
    → read_memory r ≡ (ok limits, s)
    → is_valid_memory limits ≡ true
read_memory-is_valid r s limits e =
    subst (Holds (λ l. is_valid_memory l ≡ true)) e (read_memory-Gives.run r)
