-- ===== src/Proto/Read/Session.antt =====
-- From the host's request to the last packet: the reads of firmware/usb/flashProto.cxx put together.
use spiflash_programmer.Proto.Read.Begin.{
  addressed, begin_page_read_small, transaction-addressed, address_bytes, sent-addressed,
}
use spiflash_programmer.Protocol.Page.{page_value}
use spiflash_programmer.Proto.Common.{is_large, is_w25n, page_address}
use mathlib.Core.List.{append_assoc, ◌∷◌}
use spiflash_programmer.Prelude.{
  ℕ, zero, suc, ◌+◌, ◌-◌, ◌*◌, ◌<◌, ◌≡◌, refl, false, List, ◌++◌, some, arith, ◌∙◌, ap, ◌∷◌, subst,
  sym, ◌^◌, u8, ◌>>>◌,
}
use spiflash_programmer.Machine.{World, SpiChip, Ssi, normal}
use spiflash_programmer.Machine.Action.{Env, done, Action, pure, ◌>>◌}
use spiflash_programmer.Spi.{spi_device}
use spiflash_programmer.Spi.Transaction.{sent}
use spiflash_programmer.Spi.Stream.{IsReadable, slice}
use spiflash_programmer.Proto.Read.{perform_read, handle_read, page_value, is_none}
use spiflash_programmer.Proto.Read.Stream.{
  IsStreaming, IsServed, perform_read_more, perform_read_last,
}

pub slice-append :
    (mem : ℕ → ℕ) (a x y : ℕ) → slice mem a (x + y) ≡ slice mem a x ++ slice mem (a + x) y
slice-append mem a zero y =
    let e : zero + y ≡ y = omega arith in let f : a + 0 ≡ a = omega arith in rw (e, f)
slice-append mem a (suc x) y =
    let e : suc x + y ≡ suc (x + y) = omega arith in
    let f : a + suc x ≡ a + 1 + x = omega arith in
    rw (e, f) (ap (◌∷◌ (mem a)) (slice-append mem (a + 1) x y))

-- The USB core calls for `m` packets, one after the other.
unfoldable pub packets : Env → ℕ → ℕ → Action (Unit {0})
packets env endpoint zero = pure tt
packets env endpoint (suc m) = do perform_read env endpoint; packets env endpoint m

IsServed-trans :
    {endpoint : ℕ} {xs ys : List ℕ} {m n : ℕ} {s t u : World}
    → IsServed endpoint xs m s t
    → IsServed endpoint ys n t u
    → IsServed endpoint (xs ++ ys) n s u
IsServed-trans {endpoint} {xs} {ys} {s = s} p q = record {
  served =
      q.served ∙ ap (λ (l : List ℕ). l ++ ys) p.served ∙ append_assoc (sent endpoint s.log) xs ys;
  remaining = q.remaining;
  same_id = q.same_id ∙ p.same_id;
}

-- A chip with a controller is no absent chip.
pub wired-present :
    (chip : SpiChip) (port : Ssi) → spi_device chip ≡ some port → is_none chip ≡ false
unfolding spi_device
wired-present SpiChip.none port e = cc
wired-present _ port e = refl

-- A stream that starts at `a`: packets follow one another while it can go on.
module _ (env : Env) (endpoint : ℕ) (mem : ℕ → ℕ) (a : ℕ) (Streams : (k left : ℕ) → World → Type 0)
    (more : (k left : ℕ) (s : World)
      → Streams k left s
      → env.ep_buffer_size < left
      → left < 65536
      → (t : World) × (perform_read env endpoint s ≡ done (tt, t))
        × IsServed endpoint (slice mem (a + k) env.ep_buffer_size) (left - env.ep_buffer_size) s t
        × Streams (env.ep_buffer_size + k) (left - env.ep_buffer_size) t)
    (last : (k : ℕ) (s : World)
      → Streams k env.ep_buffer_size s
      → (t : World) × (perform_read env endpoint s ≡ done (tt, t))
        × IsServed endpoint (slice mem (a + k) env.ep_buffer_size) 0 s t
        × (t.selected ≡ SpiChip.none))
    (positive : 0 < env.ep_buffer_size) where
  pub packets-serve :
      (m k : ℕ) (s : World)
      → Streams k (suc m * env.ep_buffer_size) s
      → suc m * env.ep_buffer_size < 65536
      → (t : World) × (packets env endpoint (suc m) s ≡ done (tt, t))
        × IsServed endpoint (slice mem (a + k) (suc m * env.ep_buffer_size)) 0 s t
        × (t.selected ≡ SpiChip.none)
  unfolding packets
  packets-serve zero k s h fits =
      let one : 1 * env.ep_buffer_size ≡ env.ep_buffer_size = omega arith in
      let (t, runs, serves, off) = last k s (subst (λ n. Streams k n s) one h) in
      (
        t,
        ground (arith, runs),
        subst (λ x. IsServed endpoint (slice mem (a + k) x) 0 s t) (sym one) serves,
        off,
      )
  packets-serve (suc m) k s h fits =
      let n = env.ep_buffer_size in
      let total : suc (suc m) * n ≡ n + suc m * n = grind arith in
      let rest : suc (suc m) * n - n ≡ suc m * n = omega (arith, total) in
      let enough : n < suc (suc m) * n = grind arith in
      let (t, runs, serves, on) = more k _ s h enough fits in
      let (u, runs', serves', off) =
        packets-serve m (n + k) t (subst (λ l. Streams (n + k) l t) rest on)
          (omega (arith, total)) in
      let place : a + (n + k) ≡ a + k + n = omega arith in
      let join : slice mem (a + k) n ++ slice mem (a + (n + k)) (suc m * n)
          ≡ slice mem (a + k) (suc (suc m) * n) =
        rw (place, total) (sym (slice-append mem (a + k) n (suc m * n))) in
      (
        u,
        ground (arith, runs, runs'),
        subst (λ bytes. IsServed endpoint bytes 0 s u) join (IsServed-trans serves serves'),
        off,
      )

module _ (env : Env) (endpoint : ℕ) (chip : SpiChip) (port : Ssi) (mem : ℕ → ℕ)
    (wired : spi_device chip ≡ some port) (readable : IsReadable env chip mem)
    (positive : 0 < env.ep_buffer_size) (small : env.ep_buffer_size < 65536) where
  -- A read of `suc m` packets from a chip that is addressed by bytes: the data stage's callback and
  -- the `m` packets after it send the host the chip's bytes from the page's first one on, in order
  -- and without gap, and leave no chip selected and nothing to read.
  pub read_session :
      (m : ℕ) (s : World)
      → s.read_endpoint ≡ endpoint
      → s.target_device ≡ chip
      → is_large s ≡ false
      → is_w25n s.target_id ≡ false
      → page_value s.read_page * page_value s.target_params.flash_page_size < 2 ^ 24
      → s.read_count ≡ suc m * env.ep_buffer_size
      → suc m * env.ep_buffer_size < 65536
      → (t : World) × ((handle_read env >> packets env endpoint m) s ≡ done (tt, t))
        × (sent endpoint t.log
            ≡ sent endpoint s.log
              ++ slice mem
                  (page_value s.read_page * page_value s.target_params.flash_page_size)
                  (suc m * env.ep_buffer_size))
        × (t.read_count ≡ 0)
        × (t.selected ≡ SpiChip.none)
  unfolding handle_read packets
  read_session m s ep on_chip is_small no_nand in_chip count fits =
      let addr : ℕ = page_address s s.read_page in
      let s1 : World = record s { reading = record s.reading { read_mode = normal } } in
      let s2 : World = addressed chip port 0x03 addr s1 in
      let begins = begin_page_read_small env chip port wired s.read_page s1 on_chip is_small in
      let exact : addr ≡ page_value s.read_page * page_value s.target_params.flash_page_size =
        omega arith in
      let streaming : IsStreaming chip (u8 (addr >>> 16)) (u8 (addr >>> 8)) (u8 addr) 0
          (suc m * env.ep_buffer_size) s2 =
        record {
          selected = refl;
          position = transaction-addressed chip port wired 0x03 addr s1;
          to_read = count;
          no_paging = no_nand;
        } in
      let base : ℕ = u8 (addr >>> 16) * 65536 + u8 (addr >>> 8) * 256 + u8 addr in
      let (t, runs, serves, off) =
        packets-serve env endpoint mem base
          (IsStreaming chip (u8 (addr >>> 16)) (u8 (addr >>> 8)) (u8 addr))
          (perform_read_more env endpoint chip port mem wired readable positive small _ _ _)
          (perform_read_last env endpoint chip port mem wired readable positive small _ _ _)
          positive m 0 s2 streaming fits in
      let present : is_none s.target_device ≡ false = rw on_chip (wired-present chip port wired) in
      let place : u8 (addr >>> 16) * 65536 + u8 (addr >>> 8) * 256 + u8 addr + 0
          ≡ page_value s.read_page * page_value s.target_params.flash_page_size =
        omega (arith, address_bytes addr) in
      (
        t,
        ground (arith, begins, runs, present),
        cc (serves.served, sent-addressed chip port endpoint 0x03 addr s1, place),
        serves.remaining,
        off,
      )
