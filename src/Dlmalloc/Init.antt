-- ===== src/Dlmalloc/Init.antt =====
-- `new` and `init` of seminar2/dlmalloc.c: the first state.
use id.Base.{ℕ, ◌+◌, ◌-◌, ◌*◌, ◌^◌, ◌<◌, ◌≡◌, refl, inl, [], ◌∷◌, arith, ◌==◌, false, true}
use id.Dlmalloc.{Heap, head_size, arena_size, map_failed, after, new, init}
use id.Dlmalloc.Memory.{Mem}
use id.Dlmalloc.Blocks.{Block, span}
use id.Dlmalloc.State.{IsValid}
use id.Dlmalloc.Free.{insert-IsValid}
use id.Dlmalloc.Writes.{apply, Header-apply, header, Header-header}

-- The one block of the first state.
abbrev whole : Block
whole = record { payload = arena_size - 2 * head_size; is_free = 1 }

-- The arena that `new` lays out where mmap put it.
module _ (mapped : ℕ) (h : Heap) (none_yet : h.arena ≡ 0) (empty : h.flist ≡ 0) (pos : 0 < mapped)
    (room : mapped + arena_size < 2 ^ 64) where
  abbrev sentinel : ℕ
  sentinel = mapped + whole.payload + head_size

  abbrev laid_out : Mem
  laid_out =
      apply (header sentinel 1 whole.payload 0 0) (apply (header mapped 0 0 1 whole.payload) h.mem)

  new_lem : new mapped h ≡ (mapped, record h { mem = laid_out; arena = mapped })
  unfolding new after
  new_lem =
      let null : (h.arena == 0) ≡ true = ground arith in
      let done : (mapped == map_failed) ≡ false = ground arith in
      let front =
        Header-header h.mem mapped 0 0 1 whole.payload (omega arith) (omega arith) (omega arith)
          (omega arith) in
      rw (null, done, front.has_size, front.has_free)

  laid_out-IsValid : IsValid (record h { mem = laid_out; arena = mapped }) mapped (whole ∷ []) []
  unfolding span
  laid_out-IsValid =
      let m1 = apply (header mapped 0 0 1 whole.payload) h.mem in
      record {
        positive = pos;
        room = omega arith;
        sized = omega arith;
        chain = (
          Header-apply (header sentinel 1 whole.payload 0 0) m1 mapped 0 0 1 whole.payload
              (omega arith)
              (Header-header h.mem mapped 0 0 1 whole.payload (omega arith) (omega arith)
                (omega arith) (omega arith)),
          Header-header m1 sentinel 1 whole.payload 0 0 (omega arith) (omega arith) (omega arith)
              (omega arith),
        );
        list = empty;
        spread = tt;
        frees = tt;
      }

  -- Before any arena is allocated, and when mmap returns an address with the arena below 2 ^ 64,
  -- `init` makes the arena one free block, the
  -- only one of the free list, and the state is valid.
  pub init-IsValid :
      IsValid (init mapped h) mapped (record { payload = 65520; is_free = 1 } ∷ []) (mapped ∷ [])
  unfolding init
  init-IsValid = rw new_lem (
      insert-IsValid (record h { mem = laid_out; arena = mapped }) mapped mapped (whole ∷ []) []
        laid_out-IsValid (whole, inl (refl, refl), refl) tt)
