-- ===== src/Pool.antt =====
-- zephyr/modules/rtbus/lib/bmalloc.c: the pool allocator.
-- An address is a number, 0 is NULL, and `_m_header` takes 8 bytes on the 32-bit target. `Pool` is
-- the slot of the four arrays at one index, with the memory that the slot manages: the block headers
-- at their addresses, and the other bytes.
pub mod Tiles
pub mod Search
pub mod Alloc
pub mod Release
pub mod Free
pub mod Owned
pub mod Holes
pub mod Init
mod Tests
use rtbus.Base.{
  ℕ, zero, suc, ◌+◌, ◌-◌, ◌%◌, Bool, true, false, not, ◌&&◌, ◌||◌, ltb, leb, ◌==◌, if◌then◌else◌,
}
use rtbus.Base.Word.{add32, sub32}

pub record Header : Type 0 where
  pub busy : Bool
  pub index : ℕ
  pub next : ℕ

pub record Pool : Type 0 where
  pub last : ℕ
  pub heap : ℕ
  pub top : ℕ
  pub active : Bool
  pub hdr : ℕ → Header
  pub bytes : ℕ → ℕ

-- POOL_NUM_MAX
abbrev pub pool_num_max : ℕ
pool_num_max = 2

-- sizeof(_m_header)
abbrev pub header_size : ℕ
header_size = 8

abbrev pub set_hdr : (ℕ → Header) → ℕ → Header → ℕ → Header
set_hdr f a h q = if q == a then h else f q

abbrev pub memset : (ℕ → ℕ) → ℕ → ℕ → ℕ → ℕ → ℕ
memset f p v n q = if leb p q && ltb q (p + n) then v else f q

-- `(x + 3) & ~3`, in `size_t`
abbrev pub align_up : ℕ → ℕ
align_up n = let m = add32 n 3 in m - m % 4

abbrev free_header : Header
free_header = record { busy = false; index = 0; next = 0 }

-- The slot at `index` after `init_mem_pool(index, heap, len)`. `p` is the slot before.
unfoldable pub init_mem_pool : Pool → (index heap len : ℕ) → Pool
init_mem_pool p index heap len =
    let reset = record p { last = 0; heap = 0; top = 0; active = false } in
    let start = align_up heap in
    let skip = start - heap in
    let len' = len - skip in
    if leb pool_num_max index
    then p
    else if (heap == 0) || leb len header_size
    then reset
    else if leb len (add32 skip header_size)
    then reset
    else record {
      last = 0;
      heap = start;
      top = start + (len' - 1);
      active = true;
      hdr = λ q. if leb start q && ltb q (start + len') then free_header else p.hdr q;
      bytes = memset p.bytes start 0 len';
    }

-- `_make_new_mem_hole_xdata(head, ptr)`
unfoldable pub make_new_mem_hole : (ℕ → Header) → (head ptr : ℕ) → ℕ → Header
make_new_mem_hole hdr head ptr =
    let p = (hdr head).next in
    if ltb header_size (sub32 p ptr)
    then (let hdr' = set_hdr hdr head (record (hdr head) { next = ptr }) in
        set_hdr hdr' ptr (record (hdr' ptr) { busy = false; next = p }))
    else hdr

-- The test of the first-fit search: `! isBusy && (next - ptr) - sizeof(_m_header) >= n`.
abbrev pub fits : (ℕ → Header) → (ptr n : ℕ) → Bool
fits hdr ptr n = not (hdr ptr).busy && leb n (sub32 (sub32 (hdr ptr).next ptr) header_size)

-- What the search does at the block that fits.
abbrev pub take_hole : (ℕ → Header) → (index ptr n : ℕ) → ℕ → Header
take_hole hdr index ptr n =
    make_new_mem_hole (set_hdr hdr ptr (record (hdr ptr) { busy = true; index = index })) ptr
      (ptr + header_size + n)

-- The slow path of `bmalloc`, from `ptr`: the payload address, or 0, and the headers. One unit of
-- fuel for each block.
unfoldable pub search : ℕ → (ℕ → Header) → (index last n ptr : ℕ) → ℕ × (ℕ → Header)
search zero hdr index last n ptr = (0, hdr)
search (suc k) hdr index last n ptr =
    let rest = search k hdr index last n (hdr ptr).next in
    if ltb ptr last
    then (if fits hdr ptr n then (ptr + header_size, take_hole hdr index ptr n) else rest)
    else (0, hdr)

-- The high-water mark as `bmalloc` sets it up at the first allocation.
unfoldable pub mark : Pool → ℕ
mark p = if p.last == 0 then p.heap else p.last

-- `bmalloc` once the request has passed its checks and is rounded up.
unfoldable pub bmalloc_rounded : (index : ℕ) → Pool → (n : ℕ) → ℕ × Pool
bmalloc_rounded index p n =
    let last = mark p in
    let last' = last + add32 n header_size in
    let slow = search (suc (last - p.heap)) p.hdr index last n p.heap in
    if leb (add32 n header_size) (sub32 p.top last)
    then (
      last' - n,
      record p {
        last = last';
        hdr = set_hdr p.hdr last (record { busy = true; index = index; next = last' });
        bytes = memset p.bytes (last' - n) 0 n;
      },
    )
    else (slow.0, record p { last = last; hdr = slow.1 })

unfoldable pub bmalloc : (index : ℕ) → Pool → (n : ℕ) → ℕ × Pool
bmalloc index p n =
    if leb pool_num_max index || not p.active || (n == 0)
    then (0, p)
    else bmalloc_rounded index p (align_up n)

-- The end of `bfree`: a free block that reaches the high-water mark gives its space back.
abbrev pub lower_mark : Pool → ℕ → Pool
lower_mark p head = if (p.hdr head).next == p.last then record p { last = head } else p

-- `next_h` of `bfree` at the block `curr`
abbrev pub next_block : Pool → (curr : ℕ) → ℕ
next_block p curr = if ltb (p.hdr curr).next p.last then (p.hdr curr).next else curr

-- The headers once the block before, a hole, has taken in `curr` and, if free, the block behind.
unfoldable pub merge_before : Pool → (prev curr : ℕ) → ℕ → Header
merge_before p prev curr =
    let next_h = p.hdr (next_block p curr) in
    set_hdr p.hdr prev
      (record (p.hdr prev) { next = if next_h.busy then (p.hdr curr).next else next_h.next })

-- The headers once `curr` is a hole and has taken in the block behind, if that is free.
unfoldable pub merge_after : Pool → (curr : ℕ) → ℕ → Header
merge_after p curr =
    let next_h = p.hdr (next_block p curr) in
    let hdr' =
      if not next_h.busy
      then set_hdr p.hdr curr (record (p.hdr curr) { next = next_h.next })
      else p.hdr in
    set_hdr hdr' curr (record (hdr' curr) { busy = false })

-- `bfree` at the block `curr` that holds the pointer, with the block before it.
unfoldable pub release : Pool → (prev curr : ℕ) → Pool
release p prev curr =
    if (p.hdr curr).busy
    then (if not (p.hdr prev).busy
        then lower_mark (record p { hdr = merge_before p prev curr }) prev
        else lower_mark (record p { hdr = merge_after p curr }) curr)
    else p

-- The scan of `bfree`. One unit of fuel for each block.
unfoldable pub free_from : ℕ → Pool → (prev curr ptr : ℕ) → Pool
free_from zero p prev curr ptr = p
free_from (suc k) p prev curr ptr =
    let rest = free_from k p curr (p.hdr curr).next ptr in
    if ltb curr p.last then (if ptr == curr + header_size then release p prev curr else rest) else p

unfoldable pub bfree : (index : ℕ) → Pool → (ptr : ℕ) → Pool
bfree index p ptr =
    if leb pool_num_max index || not p.active || (ptr == 0)
    then p
    else free_from (suc (p.last - p.heap)) p p.heap p.heap ptr
