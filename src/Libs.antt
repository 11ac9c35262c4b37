-- ===== src/Libs.antt =====
-- What the code calls of crypto/sha256, encoding/json, argon2id, crypto/rand and PostgreSQL's jsonb
-- input, taken as functions that the models are given.
use g_server.Common.{ℕ, String, Option, Bool}
use g_server.Domain.{Fields}

-- The struct that CommitProgress decodes a payload into. A negative amount, refused like 0, is read
-- as 0.
pub record Pickup : Type 0 where
  pub item : String
  pub amount : ℕ

pub record Libs : Type 0 where
  -- The SHA-256 of a text, in hexadecimal.
  pub sha256_hex : String → String
  -- json.Marshal of a struct with these fields, in this order.
  pub marshal : Fields → String
  -- json.Unmarshal into `Pickup`; `none` is an error.
  pub pickup_of : String → Option Pickup
  -- PostgreSQL's reading of a text as jsonb, here always an object.
  pub jsonb_in : String → Option Fields
  -- The text that PostgreSQL gives a jsonb object.
  pub jsonb_out : Fields → String
  -- argon2id.ComparePasswordAndHash, false on an error.
  pub password_matches : String → String → Bool
  -- The order of texts in the database's collation.
  pub text_before : String → String → Bool
