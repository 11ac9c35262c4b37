-- ===== src/Process/Seed.antt =====
-- Backend/main.go: the account that the command seed writes.
use Prim.Native.String.{slice, ◌++◌ as append}
use g_server.Common.{
  ℕ, ◌+◌, ◌/◌, ◌%◌, none, some, List, [], ◌∷◌, ◌++◌, String, find, update, ◌==◌, text_key,
  if◌then◌else◌,
}
use g_server.Store.{Query, Link, transact, raise, write, constraint, player_exists}

abbrev pub hex_digit : ℕ → String
hex_digit d = slice "0123456789abcdef" d (d + 1)

-- `%x`.
unfoldable pub hex : List ℕ → String
hex [] = ""
hex (b ∷ bs) = append (hex_digit (b / 16)) (append (hex_digit (b % 16)) (hex bs))

-- The 16 bytes that are drawn, each less than 256.
pub record Bytes : Type 0 where
  pub b0 : ℕ
  pub b1 : ℕ
  pub b2 : ℕ
  pub b3 : ℕ
  pub b4 : ℕ
  pub b5 : ℕ
  pub b6 : ℕ
  pub b7 : ℕ
  pub b8 : ℕ
  pub b9 : ℕ
  pub b10 : ℕ
  pub b11 : ℕ
  pub b12 : ℕ
  pub b13 : ℕ
  pub b14 : ℕ
  pub b15 : ℕ

-- `b[6] & 15 | 64` and `b[8] & 63 | 128`.
abbrev pub version_bits : Bytes → Bytes
version_bits b = record b { b6 = b.b6 % 16 + 64; b8 = b.b8 % 64 + 128 }

abbrev pub dashed : Bytes → String
dashed b = append (hex (b.b0 ∷ b.b1 ∷ b.b2 ∷ b.b3 ∷ [])) (
    append "-" (
      append (hex (b.b4 ∷ b.b5 ∷ [])) (
        append "-" (
          append (hex (b.b6 ∷ b.b7 ∷ [])) (
            append "-" (
              append (hex (b.b8 ∷ b.b9 ∷ []))
                (append "-" (hex (b.b10 ∷ b.b11 ∷ b.b12 ∷ b.b13 ∷ b.b14 ∷ b.b15 ∷ [])))))))))

unfoldable pub id_of : Bytes → String
unfolding hex
id_of b = dashed (version_bits b)

-- `insert … on conflict(username) do update set password_hash=excluded.password_hash`; the id is
-- the primary key.
unfoldable pub upsert_row : String → String → String → Query (Unit {0})
upsert_row id username hash db = elim (find (λ r. r.username == username) db.players) [
  | some _ ↦
      write
        (λ d. record d {
          players =
              update (λ r. r.username == username) (λ r. record r { password_hash = hash })
                d.players;
        })
        db
  | none ↦
      if player_exists id db
      then raise constraint db
      else write
          (λ d. record d {
            players =
                d.players
                ++ record { player_id = id; username = username; password_hash = hash } ∷ [];
          })
          db
]

unfoldable pub upsert_player : Link → String → String → String → Query (Unit {0})
unfolding upsert_row
upsert_player link id username hash = transact link (upsert_row id username hash)
