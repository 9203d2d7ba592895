-- ===== src/Envelope/Config.antt =====
-- The configuration of libs/envelope/include/envelope/envelope.hxx, and `alphabet_for` of
-- libs/envelope/src/envelope.cxx.
use minesweeper.Prelude.{Bool, Option}
use minesweeper.Parameter.{Bytes}
use minesweeper.Envelope.Base64.{Alphabet}

pub data Base64Mode : Type 0 where
  none standard url_safe : Base64Mode

-- Only called for the two modes that are base64.
unfoldable pub alphabet_for : Base64Mode → Alphabet
alphabet_for Base64Mode.url_safe = Alphabet.url_safe
alphabet_for Base64Mode.none = Alphabet.standard
alphabet_for Base64Mode.standard = Alphabet.standard

-- A key that is not configured is `none`, or empty for `sign_key`.
pub record Config : Type 0 where
  pub base64 : Base64Mode
  pub compress : Bool
  pub encrypt : Bool
  pub encrypt_key : Option Bytes
  pub sign : Bool
  pub sign_key : Bytes
