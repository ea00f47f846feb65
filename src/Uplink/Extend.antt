-- ===== src/Uplink/Extend.antt =====
-- `extendRequest` and the ends of a request.
use dnbd.Base.{ℕ, ◌+◌, ◌%◌, ◌^◌, ◌<◌, ◌≤◌, ◌≡◌, none, some, arith}
use dnbd.Uplink.Defs.{Config, Uplink, u32}
use dnbd.Uplink.Request.{extend_request, request_end, Asker}

module _ (cfg : Config) (start end size wanted : ℕ) (ordered : start ≤ end) (within : end ≤ size)
    (small : size ≤ 2 ^ 62) (aligned : size % 4096 ≡ 0) (short : wanted < u32)
    (close : end < start + u32) where
  -- `extendRequest` never cuts off what was asked for, stays within the image, and reaches at most a
  -- block beyond the wanted length or the old end.
  pub extend_request_bounds :
      (end ≤ extend_request cfg start end size wanted)
      × (extend_request cfg start end size wanted ≤ size)
  unfolding extend_request
  extend_request_bounds = ground arith

  pub extend_request_aligned :
      end < extend_request cfg start end size wanted
      → extend_request cfg start end size wanted % 4096 ≡ 0
  unfolding extend_request
  extend_request_aligned = ground arith

-- The end of a new request covers what was asked for, at a block border, within the image.
pub request_end_bounds :
    (cfg : Config) (u : Uplink) (asker : Asker) (start end : ℕ)
    → start ≤ end
    → end ≤ u.virtual_filesize
    → u.virtual_filesize ≤ 2 ^ 62
    → u.virtual_filesize % 4096 ≡ 0
    → cfg.min_request_size < u32
    → end < start + u32
    → (end ≤ request_end cfg u asker start end)
      × (request_end cfg u asker start end ≤ u.virtual_filesize)
      × (request_end cfg u asker start end % 4096 ≡ 0)
unfolding request_end
request_end_bounds cfg u none start end o w s a m c = omega arith
request_end_bounds cfg u (some x) start end o w s a m c =
    ground (
      arith,
      extend_request_bounds cfg start end u.virtual_filesize cfg.min_request_size o w s a m c,
    )
