-- ===== src/RdmaBuffer.antt =====
-- `RdmaBuffer` as `set_dex_buffer` lays it out (dex/include/RdmaBuffer.h): the areas that a thread
-- copies pages and words through, each handed out in turn. An address is a number of bytes.
use dex_partial.Base.{ℕ, zero, suc, ◌+◌, ◌*◌, ◌%◌, ◌≡◌, ◌≢◌, ◌≤◌, ◌<◌, refl, arith}

abbrev pub k_page_size : ℕ
k_page_size = 1024

abbrev pub k_page_buffer_cnt : ℕ
k_page_buffer_cnt = 8

abbrev pub k_sibling_buffer_cnt : ℕ
k_sibling_buffer_cnt = 8

abbrev pub k_cas_buffer_cnt : ℕ
k_cas_buffer_cnt = 256

abbrev pub k_entry_buffer_cnt : ℕ
k_entry_buffer_cnt = 32

abbrev pub k_per_coro_rdma_buf : ℕ
k_per_coro_rdma_buf = 128 * 1024

pub record RdmaBuffer : Type 0 where
  pub buffer : ℕ
  pub page_buffer : ℕ
  pub sibling_buffer : ℕ
  pub cas_buffer : ℕ
  pub unlock_buffer : ℕ
  pub zero_64bit : ℕ
  pub entry_buffer : ℕ
  pub page_buffer_cur : ℕ
  pub sibling_buffer_cur : ℕ
  pub cas_buffer_cur : ℕ
  pub entry_buffer_cur : ℕ

-- The cursors stay as they are.
unfoldable pub set_dex_buffer : RdmaBuffer → ℕ → RdmaBuffer
set_dex_buffer r buffer =
    let sibling = buffer + k_page_size * k_page_buffer_cnt in
    let cas = sibling + k_page_size * k_sibling_buffer_cnt in
    let unlock = cas + 8 * k_cas_buffer_cnt in
    record r {
      buffer = buffer;
      page_buffer = buffer;
      sibling_buffer = sibling;
      cas_buffer = cas;
      unlock_buffer = unlock;
      zero_64bit = unlock + 8;
      entry_buffer = unlock + 16;
    }

unfoldable pub get_cas_buffer : RdmaBuffer → ℕ × RdmaBuffer
get_cas_buffer r =
    let cur = (r.cas_buffer_cur + 1) % k_cas_buffer_cnt in
    (r.cas_buffer + 8 * cur, record r { cas_buffer_cur = cur })

unfoldable pub get_page_buffer : RdmaBuffer → ℕ × RdmaBuffer
get_page_buffer r =
    let cur = (r.page_buffer_cur + 1) % k_page_buffer_cnt in
    (r.page_buffer + cur * k_page_size, record r { page_buffer_cur = cur })

unfoldable pub get_sibling_buffer : RdmaBuffer → ℕ × RdmaBuffer
get_sibling_buffer r =
    let cur = (r.sibling_buffer_cur + 1) % k_sibling_buffer_cnt in
    (r.sibling_buffer + cur * k_page_size, record r { sibling_buffer_cur = cur })

unfoldable pub get_entry_buffer : RdmaBuffer → ℕ × RdmaBuffer
get_entry_buffer r =
    let cur = (r.entry_buffer_cur + 1) % k_entry_buffer_cnt in
    (r.entry_buffer + 8 * cur, record r { entry_buffer_cur = cur })

-- Whatever the cursors are, a page, a sibling page, a word to swap and an entry handed out of one buffer
-- lie one behind the other without overlap, inside the buffer of a coroutine.
pub buffers-apart :
    (r : RdmaBuffer) (b : ℕ)
    → let s = set_dex_buffer r b in
      (b ≤ (get_page_buffer s).0)
      × ((get_page_buffer s).0 + k_page_size ≤ (get_sibling_buffer s).0)
      × ((get_sibling_buffer s).0 + k_page_size ≤ (get_cas_buffer s).0)
      × ((get_cas_buffer s).0 + 8 ≤ s.unlock_buffer)
      × (s.zero_64bit + 8 ≤ (get_entry_buffer s).0)
      × ((get_entry_buffer s).0 + 8 ≤ b + k_per_coro_rdma_buf)
unfolding set_dex_buffer get_page_buffer get_sibling_buffer get_cas_buffer get_entry_buffer
buffers-apart r b = (omega arith, omega arith, omega arith, omega arith, omega arith, omega arith)

unfoldable pub after_pages : ℕ → RdmaBuffer → RdmaBuffer
unfolding get_page_buffer
after_pages zero r = r
after_pages (suc n) r = after_pages n (get_page_buffer r).1

after-cur :
    (n : ℕ) (r : RdmaBuffer)
    → r.page_buffer_cur < k_page_buffer_cnt
    → ((after_pages n r).page_buffer_cur ≡ (r.page_buffer_cur + n) % k_page_buffer_cnt)
      × ((after_pages n r).page_buffer ≡ r.page_buffer)
unfolding after_pages get_page_buffer
after-cur zero r h = (omega (arith, h), refl)
after-cur (suc n) r h =
    let rest = after-cur n (get_page_buffer r).1 (omega arith) in (omega (arith, rest), rest.1)

-- A page buffer is not handed out again in the next seven calls.
pub get_page_buffer-apart :
    (r : RdmaBuffer) (n : ℕ)
    → n < 7
    → (get_page_buffer (after_pages n (get_page_buffer r).1)).0 ≢ (get_page_buffer r).0
unfolding get_page_buffer
get_page_buffer-apart r n h e = omega (arith, after-cur n (get_page_buffer r).1 (omega arith), e)
