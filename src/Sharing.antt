-- ===== src/Sharing.antt =====
-- The functions of ssh/sshbuf.c and ssh/sshbuf-getput-basic.c that link buffers: sshbuf_set_parent,
-- sshbuf_fromb, sshbuf_free and sshbuf_froms. A store holds the structs that are allocated; a
-- `struct sshbuf *` is a number, and a freed or unknown one leads to nothing.
pub mod Drop
pub mod Lifetime
pub mod Dangling
pub mod Strings
use libopenssh.Base.{
  ℕ, zero, suc, ◌+◌, ◌-◌, Bool, Option, none, some, take, ltb, ◌==◌, if◌then◌else◌,
}
use mathlib.Core.Option
use libopenssh.Err.{Result, ok, err, fault, internal_error, alloc_fail}
use libopenssh.Libc.{size_t}
use libopenssh.Sshbuf.{Sshbuf, insane, from, ptr, len, consume}
use libopenssh.Getput.{peek_string_direct}

abbrev pub Store : Type 0
Store = ℕ → Option Sshbuf

abbrev pub update : Store → ℕ → Option Sshbuf → Store
update st i b j = if j == i then b else st j

-- `buf->refcount--`, and the end of the struct and its block if no reference is left.
unfoldable pub drop_ref : ℕ → Store → Option Store
drop_ref i st = elim (st i) [
  | none ↦ none
  | some b ↦ some (
      update st i
        (if ltb 0 (b.refcount - 1) then some (record b { refcount = b.refcount - 1 }) else none))
]

-- buf->parent = NULL
abbrev pub forget_parent : ℕ → Store → Store
forget_parent i st = update st i (Option.map (λ (b : Sshbuf). record b { parent = none }) (st i))

abbrev pub bind {ℓ κ} : {A : Type ℓ} {B : Type κ} → Option A → (A → Option B) → Option B
bind none f = none
bind (some a) f = f a

-- `sshbuf_free`. `none` is a use of a struct that is gone, or a chain of parents longer than the fuel.
unfoldable pub free : ℕ → Option ℕ → Store → Option Store
free fuel none st = some st
free zero (some i) st = none
free (suc fuel) (some i) st =
    let up = λ (p : Option ℕ). free fuel p st in
    bind (st i)
      λ b. if insane b then some st else bind (up b.parent) λ st'. drop_ref i (forget_parent i st')

-- child->parent = parent; child->parent->refcount++;
abbrev pub linked : ℕ → ℕ → Sshbuf → Sshbuf → Store → Store
linked child parent c p st =
    update (update st child (some (record c { parent = some parent }))) parent
      (some (record p { refcount = p.refcount + 1 }))

-- `sshbuf_set_parent` on two different structs that are both there.
unfoldable pub set_parent : ℕ → ℕ → Sshbuf → Sshbuf → Store → Store × Result (Unit {0})
set_parent child parent c p st =
    if insane c
    then (st, err internal_error)
    else if insane p
    then (st, err internal_error)
    else (linked child parent c p st, ok tt)

-- The buffer over what `b` holds, in a new struct `new_id`: the bytes from sshbuf_ptr for sshbuf_len.
unfoldable pub child_of : Bool → Sshbuf → Option Sshbuf
child_of struct_ok b = bind (ptr b) λ p. from struct_ok (b.cd + b.off) (take (len b) p) (len b)

-- The end of `sshbuf_fromb`: a child that cannot be linked is given to `sshbuf_free`.
unfoldable pub or_free : ℕ → Store × Result (Unit {0}) → Option (Store × Option ℕ)
or_free new_id (st, ok _) = some (st, some new_id)
or_free new_id (st, err _) = bind (free 1 (some new_id) st) λ st'. some (st', none)
or_free new_id (st, fault) = none

-- `sshbuf_fromb` on the struct `b` at `i`. The struct at `new_id` is free before the call. Without a
-- child the code links and frees a null pointer, which both do nothing.
unfoldable pub fromb : Bool → ℕ → ℕ → Sshbuf → Store → Option (Store × Option ℕ)
fromb struct_ok new_id i b st = if insane b then some (st, none) else elim (child_of struct_ok b) [
  | none ↦ some (st, none)
  | some c ↦ or_free new_id (set_parent new_id i c b (update st new_id (some c)))
]

-- The end of `sshbuf_froms`: the child is returned, or given to `sshbuf_free` on an error.
unfoldable pub returned : ℕ → Store × Result (Unit {0}) → Option (Store × Result ℕ)
returned new_id (st, ok _) = some (st, ok new_id)
returned new_id (st, err e) = bind (free 1 (some new_id) st) λ st'. some (st', err e)
returned new_id (st, fault) = none

-- The string is taken off the buffer at `i`, and the child `c` linked to it.
unfoldable pub taken :
    ℕ → ℕ → Sshbuf → Store → Sshbuf × Result (Unit {0}) → Store × Result (Unit {0})
taken new_id i c st (b, ok _) = set_parent new_id i c b (update st i (some b))
taken new_id i c st (b, err e) = (update st i (some b), err e)
taken new_id i c st (b, fault) = (update st i (some b), fault)

-- `sshbuf_froms` on the struct `b` at `i`; the child is the struct at `new_id`, free before the call.
unfoldable pub froms : Bool → ℕ → ℕ → Sshbuf → Store → Option (Store × Result ℕ)
froms struct_ok new_id i b st = elim (peek_string_direct b) [
  | fault ↦ none
  | err e ↦ some (st, err e)
  | ok (p, n) ↦ elim (from struct_ok (b.cd + b.off + 4) (take n p) n) [
    | none ↦ some (st, err alloc_fail)
    | some c ↦
        returned new_id (taken new_id i c (update st new_id (some c)) (consume (size_t (n + 4)) b))
  ]
]
