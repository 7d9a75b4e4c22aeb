-- ===== src/Responses.antt =====
-- The response classification of types.h, which the pipeline and the transmit state share.

-- `enum resp_kind`
pub data RespKind : Type 0 where
  rk_none rk_ok_close rk_ok_ka rk_206 rk_301 rk_304 rk_400 rk_401 rk_416 rk_403 : RespKind
  rk_404 rk_405 rk_408 rk_413 rk_431 rk_500 rk_501 rk_503 : RespKind
