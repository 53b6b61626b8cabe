-- ===== src/Model/Send/Waits.antt =====
-- The busy waiting for room in the ring buffer.
use claosi.Prelude.{
  ℕ, zero, suc, ◌+◌, ◌≡◌, refl, sym, ap, ◌∙◌, Bool, true, List, [], ◌∷◌, ◌++◌, length,
  length-append, Option, none, some, arith, some_eq,
}
use claosi.Prelude.Names.{Name}
use claosi.Model.{Node, cons, nil}
use claosi.Model.Compact.{Sizes, Block, calc_datamodel_size, copy_and_collect_datamodel}
use claosi.Model.Compact.Fits.{copy_and_collect_datamodel-IsCopied}
use claosi.Model.Syntax.Nodes.{Every, IsNodeOk}
use claosi.Ring.{MessageType, Sender, is_full}
use claosi.Ring.Memory.{ring_buffer_write-full}
use claosi.Model.Send.{
  Link, ebusy, was_full, was_written, write_copy, collected, allocated, sized, send_copy,
  send_datamodel, waiting, take_out, slept, busy_wait,
}

module _ (z : Sizes) (addr : ℕ → ℕ → ℕ) where
  abbrev alloc : ℕ → ℕ → Option ℕ
  alloc k n = some (addr k n)

  busy_again :
      (root : Node) (type : MessageType) (s : Sender) (l : Link) (size : ℕ) (blocks : List Block)
      → is_full s.ring ≡ true
      → l.tx ≡ some s
      → calc_datamodel_size z root ≡ some size
      → copy_and_collect_datamodel z root (addr l.mallocs size)
        ≡ some (blocks, addr l.mallocs size + size)
      → send_datamodel z true alloc root type (some none) l
        ≡ ebusy (record l {
          tx = some s;
          mallocs = suc l.mallocs;
          copies = l.copies ++ ((addr l.mallocs size, blocks) ∷ []);
        })
  unfolding send_datamodel send_copy sized allocated collected write_copy was_written was_full
  busy_again root type s l size blocks f t c p =
      rw (send_datamodel, t, c, p, ring_buffer_write-full type (some (addr l.mallocs size)) s f)
        refl

  -- While the ring buffer is full and the other layer takes no message out, each round of the loop
  -- that sends a tree whose nodes pass the syntax check makes another copy of it, if memory for it is
  -- there, and none of the copies is freed.
  pub busy_wait_leaks :
      (known : Name → Bool) (fuel : ℕ) (root : Node) (type : MessageType) (s : Sender) (l : Link)
      → Every (IsNodeOk known) (cons root nil)
      → is_full s.ring ≡ true
      → l.tx ≡ some s
      → (l' : Link) × (busy_wait z true alloc (λ i. 0) fuel root type l ≡ waiting l')
        × (length l'.copies ≡ length l.copies + fuel)
        × (l'.returned ≡ l.returned)
        × (l'.tx ≡ some s)
  unfolding busy_wait slept take_out
  busy_wait_leaks known zero root type s l ok f t = (l, refl, omega arith, refl, t)
  busy_wait_leaks known (suc fuel) root type s l ok f t =
      let sizes = copy_and_collect_datamodel-IsCopied z known root 0 ok in
      let a = addr l.mallocs sizes.size in
      let c = copy_and_collect_datamodel-IsCopied z known root a ok in
      let same : c.size ≡ sizes.size = some_eq (sym c.calculated ∙ sizes.calculated) in
      let p = c.copied ∙ ap (λ n. some (c.blocks, a + n)) same in
      let again = busy_again root type s l sizes.size c.blocks f t sizes.calculated p in
      let l1 : Link = record l {
        tx = some s;
        mallocs = suc l.mallocs;
        copies = l.copies ++ ((a, c.blocks) ∷ []);
      } in
      let (l', run, more, kept, tx) = busy_wait_leaks known fuel root type s l1 ok f refl in
      (
        l',
        rw (busy_wait, again) run,
        omega (arith, more, length-append l.copies ((a, c.blocks) ∷ [])),
        kept,
        tx,
      )
