-- ===== src/TypeChecker/Pops.antt =====
-- The validation algorithm of the WebAssembly specification, for one signature: operands are
-- popped from the last type to the first, and below an `unreachable` any number can be popped.
-- `PopAndCheckSignature` of src/type-checker.cc implements it.
use wasm_sandboxing.Base.{
  ℕ, zero, suc, ◌-◌, ◌≤◌, ◌<◌, ◌≡◌, refl, sym, ap, ◌∙◌, ◌⊎◌, ◌↔◌, inl, inr, String, Bool, true,
  Option, none, some, Bool-cases, List, [], ◌∷◌, ◌++◌, length, length-append, drop, drop-append,
  drop-append_le, get_elem?, get_or, leb, ◌==◌, ==_iff, if◌then◌else◌, arith,
}
use wasm_sandboxing.TypeChecker.State.{
  Result, ok, error, ◌⊕◌, ValueType, i32, i64, f32, f64, v128, anyfunc, except_ref, func, void,
  same_type, type_code, any, TypeVector, Label, Checker, M, pure, ◌>>=◌, ◌>>◌, top_label, resize,
}
use wasm_sandboxing.TypeChecker.Check.{
  peek_type, check_type, peek_and_check_type, drop_types, check_types, check_signature, also,
  print_stack_if_failed, pop_and_check_signature,
}
use wasm_sandboxing.TypeChecker.Frame.{top_label-cons, check_label-some}

-- One operand, of the operands above the label's limit.
pub pop_val : Bool → ValueType → TypeVector → Option TypeVector
pop_val unreachable expected [] = if unreachable then some [] else none
pop_val unreachable expected (v ∷ vs) = elim (check_type v expected) [ ok ↦ some vs | error ↦ none ]

abbrev pop_more : Bool → ValueType → Option TypeVector → Option TypeVector
pop_more unreachable t none = none
pop_more unreachable t (some vs) = pop_val unreachable t vs

unfoldable pub pop_vals : Bool → TypeVector → TypeVector → Option TypeVector
unfolding pop_val
pop_vals unreachable [] vs = some vs
pop_vals unreachable (t ∷ ts) vs = pop_more unreachable t (pop_vals unreachable ts vs)

of_code : ℕ → ValueType
of_code c =
    if c == 0x7f
    then i32
    else if c == 0x7e
    then i64
    else if c == 0x7d
    then f32
    else if c == 0x7c
    then f64
    else if c == 0x7b
    then v128
    else if c == 0x70
    then anyfunc
    else if c == 0x68
    then except_ref
    else if c == 0x60
    then func
    else if c == 0x40
    then void
    else any

of_code-type_code : (t : ValueType) → of_code (type_code t) ≡ t
unfolding of_code
of_code-type_code i32 = refl
of_code-type_code _ = refl

pub same_type→eq : (a b : ValueType) → same_type a b ≡ true → a ≡ b
same_type→eq a b h = sym (of_code-type_code a) ∙ ap of_code ((==_iff _ _).0 h) ∙ of_code-type_code b

same_type_refl : (a b : ValueType) → a ≡ b → same_type a b ≡ true
same_type_refl a b e = (==_iff _ _).1 (ap type_code e)

-- Two types agree exactly if they are one, or either is `Any`.
check_type-ok : (a e : ValueType) → (check_type a e ≡ ok) ↔ ((a ≡ e) ⊎ (a ≡ any) ⊎ (e ≡ any))
unfolding check_type
check_type-ok a e = (
  λ h. ground (arith, same_type→eq e a, same_type→eq e any, same_type→eq a any),
  λ h. ground (arith, same_type_refl e a, same_type_refl e any, same_type_refl a any),
)

abbrev reached : Bool → Result
reached u = if u then ok else error

abbrev peeked : Bool → Option ValueType → Result × ValueType
peeked u none = (reached u, any)
peeked u (some v) = (ok, v)

-- The result of the loop of `CheckSignature`.
abbrev checked : Bool → TypeVector → TypeVector → Result
checked u [] vs = ok
checked u (t ∷ ts) vs =
    let p = peeked u (get_elem? vs (length ts)) in (p.0 ⊕ check_type p.1 t) ⊕ checked u ts vs

abbrev left : Result → ℕ → TypeVector → Option TypeVector
left ok n vs = some (drop n vs)
left error n vs = none

left-cons :
    (r : Result) (n : ℕ) (v : ValueType) (vs : TypeVector) → left r (suc n) (v ∷ vs) ≡ left r n vs
left-cons ok n v vs = refl
left-cons error n v vs = refl

check_type-any : (t : ValueType) → check_type any t ≡ ok
unfolding check_type
check_type-any t = ground arith

pop_val-drop :
    (u : Bool) (t : ValueType) (n : ℕ) (vs : TypeVector)
    → let p = peeked u (get_elem? vs n) in
      pop_val u t (drop n vs) ≡ left (p.0 ⊕ check_type p.1 t) (suc n) vs
unfolding pop_val
pop_val-drop u t zero [] = ground (arith, check_type-any t)
pop_val-drop u t (suc n) [] = ground (arith, check_type-any t)
pop_val-drop u t zero (v ∷ vs) = ground arith
pop_val-drop u t (suc n) (v ∷ vs) = pop_val-drop u t n vs ∙ sym (left-cons _ (suc n) v vs)

pub pop_vals-checked :
    (u : Bool) (sig vs : TypeVector) → pop_vals u sig vs ≡ left (checked u sig vs) (length sig) vs
unfolding pop_vals
pop_vals-checked u [] vs = refl
pop_vals-checked u (t ∷ ts) vs =
    ground (arith, pop_vals-checked u ts vs, pop_val-drop u t (length ts) vs)

get_elem?-none : (vs : TypeVector) (i : ℕ) → length vs ≤ i → get_elem? vs i ≡ none
get_elem?-none [] i h = refl
get_elem?-none (v ∷ vs) zero h = absurd (omega arith)
get_elem?-none (v ∷ vs) (suc i) h = get_elem?-none vs i (omega arith)

get_elem?-append :
    (vs base : TypeVector) (i : ℕ)
    → i < length vs
    → get_elem? vs i ≡ some (get_or (vs ++ base) i any)
get_elem?-append [] base i h = absurd (omega arith)
get_elem?-append (v ∷ vs) base zero h = refl
get_elem?-append (v ∷ vs) base (suc i) h = get_elem?-append vs base i (omega arith)

short-unreachable :
    (u : Bool) (sig vs : TypeVector)
    → checked u sig vs ≡ ok
    → length vs < length sig
    → reached u ≡ ok
short-unreachable u [] vs e h = absurd (omega arith)
short-unreachable u (t ∷ ts) vs e h = ground (arith, get_elem?-none vs (length ts))

drop-short : (n : ℕ) (vs : TypeVector) → length vs ≤ n → drop n vs ≡ []
drop-short zero [] h = refl
drop-short zero (v ∷ vs) h = absurd (omega arith)
drop-short (suc n) [] h = refl
drop-short (suc n) (v ∷ vs) h = drop-short n vs (omega arith)

module _ {A B : Type 0} (m : M A) (f : A → M B) (s t : Checker) (a : A) where
  bind-eq : m s ≡ (a, t) → (m >>= f) s ≡ f a t
  unfolding ◌>>=◌
  bind-eq e = ap (λ p. f p.0 p.1) e

-- `vs` are the operands above the limit of the innermost label `l`, and `base` those below.
module _ (s : Checker) (l : Label) (ls : List Label) (vs base : TypeVector)
    (labels : s.label_stack ≡ l ∷ ls) (stack : s.type_stack ≡ vs ++ base)
    (height : l.type_stack_limit ≡ length base) where
  peek_type-at : (d : ℕ) → peek_type d s ≡ (peeked l.unreachable (get_elem? vs d), s)
  unfolding peek_type
  peek_type-at d =
      check_label-some _ top_label _ s s l (top_label-cons s l ls labels)
      ∙ ground (
        arith,
        ap length stack,
        length-append vs base,
        ap (λ xs. get_or xs d any) stack,
        get_elem?-none vs d,
        get_elem?-append vs base d,
      )

  abbrev at_depth : ℕ → ValueType → Result
  at_depth d t = let p = peeked l.unreachable (get_elem? vs d) in p.0 ⊕ check_type p.1 t

  peek_and_check_type-at :
      (d : ℕ) (t : ValueType)
      → let p = peeked l.unreachable (get_elem? vs d) in
        peek_and_check_type d t s ≡ (p.0 ⊕ check_type p.1 t, s)
  unfolding peek_and_check_type
  peek_and_check_type-at d t =
      bind-eq (peek_type d) (λ p. pure (p.0 ⊕ check_type p.1 t)) s s _ (peek_type-at d)

  check_types-at : (sig : TypeVector) → check_types sig s ≡ (checked l.unreachable sig vs, s)
  unfolding check_types
  check_types-at [] = refl
  check_types-at (t ∷ ts) =
      bind-eq (peek_and_check_type (length ts) t)
        (λ first. check_types ts >>= λ rest. pure (first ⊕ rest)) s s _
        (peek_and_check_type-at (length ts) t)
      ∙ bind-eq (check_types ts) (λ rest. pure (at_depth (length ts) t ⊕ rest)) s s _
          (check_types-at ts)

  abbrev with_operands : TypeVector → Result × Checker
  with_operands xs = (ok, record s { type_stack = xs ++ base })

  stays : (n : ℕ) → n ≤ length vs → drop n s.type_stack ≡ drop n vs ++ base
  stays n h = ap (drop n) stack ∙ drop-append_le n vs base h

  runs_out : (n : ℕ) → length vs < n → resize l.type_stack_limit s.type_stack ≡ drop n vs ++ base
  unfolding resize
  runs_out n h = ground (
    arith,
    ap length stack,
    length-append vs base,
    ap (drop (length s.type_stack - l.type_stack_limit)) stack,
    drop-append vs base,
    drop-short n vs,
  )

  drop_types-at :
      (n : ℕ)
      → (n ≤ length vs) ⊎ (reached l.unreachable ≡ ok)
      → drop_types n s ≡ with_operands (drop n vs)
  unfolding drop_types
  drop_types-at n h =
      check_label-some _ top_label _ s s l (top_label-cons s l ls labels)
      ∙ ground (arith, ap length stack, length-append vs base, stays n, runs_out n)

  check_signature-ok :
      (sig : TypeVector) (desc : String)
      → checked l.unreachable sig vs ≡ ok
      → check_signature sig desc s ≡ (ok, s)
  unfolding check_signature ◌>>◌
  check_signature-ok sig desc e =
      bind-eq (check_types sig) (λ r. print_stack_if_failed r desc sig >> pure r) s s ok
        (check_types-at sig ∙ ap (λ r. (r, s)) e)

  enough-or-unreachable :
      (sig : TypeVector)
      → checked l.unreachable sig vs ≡ ok
      → (length sig ≤ length vs) ⊎ (reached l.unreachable ≡ ok)
  enough-or-unreachable sig e = elim (Bool-cases (leb (length sig) (length vs))) [
    | inl y ↦ inl (ground arith)
    | inr y ↦ inr (short-unreachable l.unreachable sig vs e (ground arith))
  ]

  pop_and_check_signature-ok :
      (sig : TypeVector) (desc : String)
      → checked l.unreachable sig vs ≡ ok
      → pop_and_check_signature sig desc s ≡ with_operands (drop (length sig) vs)
  unfolding pop_and_check_signature
  pop_and_check_signature-ok sig desc e =
      bind-eq (check_signature sig desc) (λ r. also r (drop_types (length sig))) s s ok
        (check_signature-ok sig desc e)
      ∙ bind-eq (drop_types (length sig)) (λ more. pure (ok ⊕ more)) s _ ok
          (drop_types-at (length sig) (enough-or-unreachable sig e))

  pop_and_check_signature-error :
      (sig : TypeVector) (desc : String)
      → checked l.unreachable sig vs ≡ error
      → (pop_and_check_signature sig desc s).0 ≡ error
  unfolding pop_and_check_signature
  pop_and_check_signature-error sig desc e =
      ap (λ p. p.0)
        (bind-eq (check_signature sig desc) (λ r. also r (drop_types (length sig))) s _ error
          (bind-eq (check_types sig) (λ r. print_stack_if_failed r desc sig >> pure r) s s error
            (check_types-at sig ∙ ap (λ r. (r, s)) e)))

  -- What the specification's algorithm answers, and what the checker then does.
  abbrev pub Implements : Option TypeVector → Result × Checker → Type 0
  Implements none out = out.0 ≡ error
  Implements (some rest) out = out ≡ (ok, record s { type_stack = rest ++ base })

  -- In a state with a label, whose limit is at most the height of the operand stack,
  -- `PopAndCheckSignature` succeeds exactly when the specification's algorithm pops the signature
  -- from the operands above that limit. Those it leaves are then what is left above the limit,
  -- and nothing else changes.
  pub pop_and_check_signature-Implements :
      (sig : TypeVector) (desc : String)
      → Implements (pop_vals l.unreachable sig vs) (pop_and_check_signature sig desc s)
  pop_and_check_signature-Implements sig desc =
      rw (pop_vals-checked l.unreachable sig vs) (go (checked l.unreachable sig vs) refl)
    where
      go :
          (r : Result)
          → checked l.unreachable sig vs ≡ r
          → Implements (left r (length sig) vs) (pop_and_check_signature sig desc s)
      go ok e = pop_and_check_signature-ok sig desc e
      go error e = pop_and_check_signature-error sig desc e
