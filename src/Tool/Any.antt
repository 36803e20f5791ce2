-- ===== src/Tool/Any.antt =====
-- TrantorAny (src/tool/inc/TrantorAny.h): a variable of any type, which points to a holder on the
-- heap. A type is a value of `Code` and `Value` gives its values; `same` is the comparison of
-- `type_info`. A pointer is an address, and `none` as a pointer is NULL. What the program leaves
-- undefined (a look through NULL or through a pointer to what was deleted) and a failed assert are
-- `none` as a result.
pub mod Casts
pub mod Copies
mod Examples
use trantor_net.Base.{ℕ, suc, ◌≡◌, subst, Option, none, some, List, [], ◌∷◌}
use trantor_net.Tcp.Server.{update}

module _ (Code : Type 0) (Value : Code → Type 0) where
  -- `Holder<T>`
  pub record Holder : Type 0 where
    pub code : Code
    pub held : Value code

  pub record Heap : Type 0 where
    pub holders : ℕ → Option Holder
    pub next : ℕ

  -- The variables, each as its `base_holder_`, and the heap.
  pub record State : Type 0 where
    pub heap : Heap
    pub vars : ℕ → Option ℕ

  abbrev pub new_state : State
  new_state = record { heap = record { holders = λ p. none; next = 0 }; vars = λ i. none }

  -- `new Holder<T>(p)`
  unfoldable pub new_holder : Holder → Heap → Heap
  new_holder h m = record { holders = update m.next (some h) m.holders; next = suc m.next }

  -- `getType` of what a pointer points to.
  unfoldable pub type_id : Option ℕ → Heap → Option Code
  type_id none m = none
  type_id (some p) m = elim (m.holders p) [ none ↦ none | some h ↦ some h.code ]

  -- A variable is made to point to a new holder. The assignments do the same as the constructors:
  -- they delete nothing.
  unfoldable pub set_value : ℕ → Holder → State → State
  unfolding new_holder
  set_value i h s = record { heap = new_holder h s.heap; vars = update i (some s.heap.next) s.vars }

  -- `base_holder_->copy()`
  unfoldable pub copy_holder : ℕ → Option Holder → State → Option State
  unfolding set_value
  copy_holder i none s = none
  copy_holder i (some h) s = some (set_value i h s)

  -- The copy of a variable, by the constructor and by the assignment.
  unfoldable pub copy_any : ℕ → Option ℕ → State → Option State
  unfolding copy_holder
  copy_any i none s = some (record s { vars = update i none s.vars })
  copy_any i (some p) s = copy_holder i (s.heap.holders p) s

  -- `~TrantorAny`
  unfoldable pub delete_holder : Option ℕ → State → State
  delete_holder none s = s
  delete_holder (some p) s = record s {
    heap = record (s.heap) { holders = update p none s.heap.holders };
  }

  pub data Op : Type 0 where
    declare : ℕ → Op  -- TrantorAny()
    construct : ℕ → Holder → Op  -- TrantorAny(const T&)
    construct_copy : ℕ → ℕ → Op  -- TrantorAny(const TrantorAny&)
    assign : ℕ → Holder → Op
    assign_copy : ℕ → ℕ → Op
    destroy : ℕ → Op

  unfoldable pub apply : Op → State → Option State
  unfolding set_value copy_any delete_holder
  apply (declare i) s = some (record s { vars = update i none s.vars })
  apply (construct i h) s = some (set_value i h s)
  apply (construct_copy i j) s = copy_any i (s.vars j) s
  apply (assign i h) s = some (set_value i h s)
  apply (assign_copy i j) s = copy_any i (s.vars j) s
  apply (destroy i) s = some (delete_holder (s.vars i) s)

  unfoldable pub apply_to : Op → Option State → Option State
  unfolding apply
  apply_to op none = none
  apply_to op (some s) = apply op s

  -- The latest operation is the first of the list.
  unfoldable pub run : List Op → Option State
  unfolding apply_to
  run [] = some new_state
  run (op ∷ ops) = apply_to op (run ops)

  module _ (same : Discrete Code) where
    abbrev value_if : (h : Holder) (d : Code) → Dec (h.code ≡ d) → Option (Value d)
    value_if h d (yes e) = some (subst Value e h.held)
    value_if h d (no n) = none

    -- `trantorAnyCast(const TrantorAny&)`, where a wrong type fails the assert.
    unfoldable pub any_cast : (d : Code) → Option ℕ → Heap → Option (Value d)
    any_cast d none m = none
    any_cast d (some p) m = elim (m.holders p) [
      | none ↦ none
      | some h ↦ value_if h d (same h.code d)
    ]

    abbrev address_if : {P : Type 0} → ℕ → Dec P → Option ℕ
    address_if p (yes e) = some p
    address_if p (no n) = none

    -- `trantorAnyCast(TrantorAny*)` of a pointer to a variable: the address of the value, or NULL.
    unfoldable pub any_cast_ptr : Code → Option ℕ → State → Option (Option ℕ)
    unfolding type_id
    any_cast_ptr d none s = some none
    any_cast_ptr d (some i) s = elim (s.vars i) [
      | none ↦ none
      | some p ↦ elim (type_id (some p) s.heap) [
        | none ↦ none
        | some c ↦ some (address_if p (same c d))
      ]
    ]
