-- ===== src/Tests/Requests.antt =====
-- The size of a request, and its numbers.
use g_server.Transport.Limiter.{slot}
use g_server.Tests.Server.{config, start}
use g_server.Common.{
  ℕ, pos, negsuc, true, false, some, List, [], ◌∷◌, ◌≡◌, ◌≤◌, ◌↔◌, refl, arith, zero, suc, lookup,
  insert, number_key, text_key, if◌then◌else◌, ◌==◌,
}
use g_server.Tests.Sample.{lib, fresh}
use g_server.Tests.Http.{decoder, service, cx, request, windows}
use g_server.Transport.Number.{integer, finite, max_float, int64, min_int64}
use g_server.Transport.Serve.{
  State, serve_http, rate, limit_of, read_and_route, header_refusal, body_refusal, too_large,
}
use g_server.Transport.Message.{Request}
use g_server.Transport.Internal.{IsRefused}
use g_server.Transport.Peer.{may_connect}
use g_server.Transport.Number.Bounds.{is_value, integer_iff}
use g_server.Transport.Limiter.{sweep, last, drop_stale}
use g_server.Transport.Guards.{large_body-IsRefused}

zeros : ℕ → List ℕ
zeros zero = []
zeros (suc n) = 0 ∷ zeros n

-- A body of 8193 bytes.
abbrev large : Request
large = record (request "/v1/auth/login" "") { body = zeros 8193; content_length = negsuc 0 }

abbrev login_windows : State
login_windows = record { db = fresh; windows = windows "/v1/auth/login" }

refused_large :
    serve_http lib decoder [] service cx config.handler large start
    ≡ some (too_large, login_windows)
unfolding serve_http may_connect rate slot sweep last drop_stale lookup insert limit_of
    read_and_route header_refusal body_refusal zeros
refused_large = refl

large_body-IsRefused_example : IsRefused too_large fresh fresh
unfolding zeros
large_body-IsRefused_example =
    large_body-IsRefused lib decoder [] service cx config.handler large start login_windows
      too_large (omega arith) refused_large

integer_iff_example : (integer (finite false 1 (pos 63)) ≡ true) ↔ (
    (n : ℕ) × (is_value (finite false 1 (pos 63)) n ≡ true)
    × (n ≤ max_float)
    × (int64 (finite false 1 (pos 63)) ≡ (if n == max_float then min_int64 else pos n)))
integer_iff_example = integer_iff (finite false 1 (pos 63))

-- 2 ^ 63 is let through, 1.5 is not.
past_int64 : integer (finite false 1 (pos 63)) ≡ true
unfolding integer
past_int64 = refl

no_fraction : integer (finite false 3 (negsuc 0)) ≡ false
unfolding integer
no_fraction = refl
