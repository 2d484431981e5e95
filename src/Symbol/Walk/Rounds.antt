-- ===== src/Symbol/Walk/Rounds.antt =====
-- One round of WalkTable, and what the symbols behind it give.
use pyflame.Common.{
  clash, ℕ, Bool, true, false, not, ◌&&◌, Option, none, some, List, ◌∷◌, ◌≡◌, refl, ◌==◌,
  if◌then◌else◌, Bool-cases, inl, inr,
}
use pyflame.Symbol.Addresses.{PyAbi, py34, PyAddresses}
use pyflame.Symbol.Walk.Kinds.{
  Kind, thread_state, interp_head, interp_head_fn, string_type, bytes_type, extra_index, other,
  kind_of, step,
}
use pyflame.Symbol.Walk.Scan.{Symbol}
use pyflame.Symbol.Walk.{Walk}
use pyflame.Symbol.Walk.Values.{
  is_thread_state, is_head, is_head_fn, is_bytes, until_head, last_head_fn, decided, first_abi,
  has_bytes, abi_of,
}

if-fields :
    {A : Type 0} (f : Walk → A) (b : Bool) (k u : Walk) → f k ≡ f u → f (if b then k else u) ≡ f u
if-fields f true k u h = h
if-fields f false k u h = refl

if-fields' :
    {A : Type 0} (f : Walk → A) (b : Bool) (k u : Walk) → f u ≡ f k → f (if b then k else u) ≡ f k
if-fields' f true k u h = refl
if-fields' f false k u h = h

-- A round leaves a field that its kind of symbol does not set.
pub step-keeps :
    {A : Type 0} (f : PyAddresses → A) (c : Kind) (v : ℕ) (k : Walk)
    → (is_thread_state c ≡ true → f (record (k.addrs) { tstate_addr = v }) ≡ f k.addrs)
    → (is_head c ≡ true → f (record (k.addrs) { interp_head_addr = v }) ≡ f k.addrs)
    → (is_head_fn c ≡ true → f (record (k.addrs) { interp_head_fn_addr = v }) ≡ f k.addrs)
    → f (step c v k).addrs ≡ f k.addrs
unfolding step
step-keeps f thread_state v k h i j =
    if-fields (λ u. f u.addrs) (k.addrs.tstate_addr == 0) _ k (h refl)
step-keeps f interp_head v k h i j =
    if-fields (λ u. f u.addrs) (k.addrs.interp_head_addr == 0) _ k (i refl)
step-keeps f interp_head_fn v k h i j =
    if-fields (λ u. f u.addrs) (k.addrs.interp_head_addr == 0) _ k (j refl)
step-keeps f string_type v k h i j = if-fields' (λ u. f u.addrs) k.have_abi k _ refl
step-keeps f bytes_type v k h i j = if-fields' (λ u. f u.addrs) k.have_abi k _ refl
step-keeps f extra_index v k h i j = if-fields' (λ u. f u.addrs) k.have_abi k _ refl
step-keeps f other v k h i j = refl

if-not : {A : Type 0} (b : Bool) (u v : A) → (if b then u else v) ≡ (if not b then v else u)
if-not true u v = refl
if-not false u v = refl

-- One round, and what the symbols behind it give.
tstate-other :
    (c : Kind) (v rest : ℕ) (k : Walk)
    → is_thread_state c ≡ false
    → (if (step c v k).addrs.tstate_addr == 0 then rest else (step c v k).addrs.tstate_addr) ≡ (
        if k.addrs.tstate_addr == 0
        then if is_thread_state c && not (v == 0) then v else rest
        else k.addrs.tstate_addr)
tstate-other c v rest k h =
    rw (step-keeps (λ a. a.tstate_addr) c v k (λ e. clash e h) (λ _. refl) (λ _. refl), h) refl

pub tstate-round :
    (c : Kind) (v rest : ℕ) (k : Walk)
    → (if (step c v k).addrs.tstate_addr == 0 then rest else (step c v k).addrs.tstate_addr) ≡ (
        if k.addrs.tstate_addr == 0
        then if is_thread_state c && not (v == 0) then v else rest
        else k.addrs.tstate_addr)
unfolding step
tstate-round thread_state v rest k = elim (Bool-cases (k.addrs.tstate_addr == 0)) [
  | inl e ↦ rw e (if-not (v == 0) rest v)
  | inr e ↦ rw (e, e) refl
]
tstate-round interp_head v rest k = tstate-other interp_head v rest k refl
tstate-round interp_head_fn v rest k = tstate-other interp_head_fn v rest k refl
tstate-round string_type v rest k = tstate-other string_type v rest k refl
tstate-round bytes_type v rest k = tstate-other bytes_type v rest k refl
tstate-round extra_index v rest k = tstate-other extra_index v rest k refl
tstate-round other v rest k = tstate-other other v rest k refl

head-other :
    (c : Kind) (v rest : ℕ) (k : Walk)
    → is_head c ≡ false
    → (if (step c v k).addrs.interp_head_addr == 0
        then rest
        else (step c v k).addrs.interp_head_addr)
      ≡ (if k.addrs.interp_head_addr == 0
          then if is_head c && not (v == 0) then v else rest
          else k.addrs.interp_head_addr)
head-other c v rest k h =
    rw (step-keeps (λ a. a.interp_head_addr) c v k (λ _. refl) (λ e. clash e h) (λ _. refl), h) refl

pub head-round :
    (c : Kind) (v rest : ℕ) (k : Walk)
    → (if (step c v k).addrs.interp_head_addr == 0
        then rest
        else (step c v k).addrs.interp_head_addr)
      ≡ (if k.addrs.interp_head_addr == 0
          then if is_head c && not (v == 0) then v else rest
          else k.addrs.interp_head_addr)
unfolding step
head-round interp_head v rest k = elim (Bool-cases (k.addrs.interp_head_addr == 0)) [
  | inl e ↦ rw e (if-not (v == 0) rest v)
  | inr e ↦ rw (e, e) refl
]
head-round thread_state v rest k = head-other thread_state v rest k refl
head-round interp_head_fn v rest k = head-other interp_head_fn v rest k refl
head-round string_type v rest k = head-other string_type v rest k refl
head-round bytes_type v rest k = head-other bytes_type v rest k refl
head-round extra_index v rest k = head-other extra_index v rest k refl
head-round other v rest k = head-other other v rest k refl

-- The address of the function, where the symbols behind give `rest` of the address so far.
fn-other :
    (c : Kind) (v : ℕ) (xs : List Symbol) (k : Walk)
    → is_head c ≡ false
    → is_head_fn c ≡ false
    → (if (step c v k).addrs.interp_head_addr == 0
        then last_head_fn xs (step c v k).addrs.interp_head_fn_addr
        else (step c v k).addrs.interp_head_fn_addr)
      ≡ (if k.addrs.interp_head_addr == 0
          then last_head_fn xs k.addrs.interp_head_fn_addr
          else k.addrs.interp_head_fn_addr)
fn-other c v xs k h i =
    rw
      (
        step-keeps (λ a. a.interp_head_addr) c v k (λ _. refl) (λ e. clash e h) (λ _. refl),
        step-keeps (λ a. a.interp_head_fn_addr) c v k (λ _. refl) (λ _. refl) (λ e. clash e i),
      )
      refl

pub fn-round :
    (c : Kind) (x : Symbol) (xs : List Symbol) (k : Walk)
    → kind_of x.name ≡ c
    → (if (step c x.value k).addrs.interp_head_addr == 0
        then last_head_fn (until_head xs) (step c x.value k).addrs.interp_head_fn_addr
        else (step c x.value k).addrs.interp_head_fn_addr)
      ≡ (if k.addrs.interp_head_addr == 0
          then last_head_fn (until_head (x ∷ xs)) k.addrs.interp_head_fn_addr
          else k.addrs.interp_head_fn_addr)
unfolding step until_head last_head_fn
fn-round interp_head x xs k p = elim (Bool-cases (k.addrs.interp_head_addr == 0)) [
  | inl e ↦ elim (Bool-cases (x.value == 0)) [
    | inl f ↦ rw (p, e, f, p) refl
    | inr f ↦ rw (p, e, f) refl
  ]
  | inr e ↦ rw (e, e) refl
]
fn-round interp_head_fn x xs k p = elim (Bool-cases (k.addrs.interp_head_addr == 0)) [
  | inl e ↦ rw (p, e, p, e) refl
  | inr e ↦ rw (e, e) refl
]
fn-round thread_state x xs k p =
    rw (p, p) (fn-other thread_state x.value (until_head xs) k refl refl)
fn-round string_type x xs k p = rw (p, p) (fn-other string_type x.value (until_head xs) k refl refl)
fn-round bytes_type x xs k p = rw (p, p) (fn-other bytes_type x.value (until_head xs) k refl refl)
fn-round extra_index x xs k p = rw (p, p) (fn-other extra_index x.value (until_head xs) k refl refl)
fn-round other x xs k p = rw (p, p) (fn-other other x.value (until_head xs) k refl refl)

-- `abi_of` on a list whose first symbol is of the kind `c`.
unfoldable pub abi_behind : Kind → List Symbol → PyAbi → PyAbi
abi_behind c xs b = elim (decided c (first_abi xs)) [
  | some a ↦ a
  | none ↦ if (if is_bytes c then true else has_bytes xs) then py34 else b
]

same-py34 :
    (o : Option PyAbi) (b : Bool)
    → elim o as (λ _. PyAbi) [ some a ↦ a | none ↦ if b then py34 else py34 ]
      ≡ elim o as (λ _. PyAbi) [ some a ↦ a | none ↦ py34 ]
same-py34 none true = refl
same-py34 none false = refl
same-py34 (some a) b = refl

-- The ABI at the end, where the symbols `xs` are left.
unfoldable pub abi_left : List Symbol → Walk → PyAbi
abi_left xs k = if k.have_abi then k.abi else abi_of xs k.abi

pub abi-round :
    (c : Kind) (v : ℕ) (xs : List Symbol) (a : PyAddresses) (b : PyAbi) (h : Bool)
    → abi_left xs (step c v (record { addrs = a; abi = b; have_abi = h }))
      ≡ (if h then b else abi_behind c xs b)
unfolding step abi_behind abi_left
abi-round thread_state v xs a b h =
    if-fields (abi_left xs) (a.tstate_addr == 0) _ (record { addrs = a; abi = b; have_abi = h })
      refl
abi-round interp_head v xs a b h =
    if-fields (abi_left xs) (a.interp_head_addr == 0) _
      (record { addrs = a; abi = b; have_abi = h }) refl
abi-round interp_head_fn v xs a b h =
    if-fields (abi_left xs) (a.interp_head_addr == 0) _
      (record { addrs = a; abi = b; have_abi = h }) refl
abi-round string_type v xs a b true = refl
abi-round string_type v xs a b false = refl
abi-round bytes_type v xs a b true = refl
abi-round bytes_type v xs a b false = same-py34 (first_abi xs) (has_bytes xs)
abi-round extra_index v xs a b true = refl
abi-round extra_index v xs a b false = refl
abi-round other v xs a b h = refl
