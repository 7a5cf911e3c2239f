-- ===== src/Rpc/Env.antt =====
-- What near_rpc.py calls and does not implement: the node behind `urlopen`, base64, base58, SHA-256,
-- Ed25519, and `int` of a text.
use proof_forge_near.Prelude.{Option, Text, Bytes}
use proof_forge_near.Py.Int.{ℤ}
use proof_forge_near.Py.Value.{Value}

-- The node's answer: parsed JSON, a `URLError`, or a body that is no JSON text.
pub data Reply : Type 0 where
  answered : Value → Reply
  unreachable not_json : Reply

pub record Env : Type 1 where
  pub World : Type 0
  -- One request, by its `method` and `params`.
  pub urlopen : Text → Value → World → Reply × World
  pub b64encode : Bytes → Text
  -- `base64.b64decode(s)` and `base64.b64decode(s, validate=True)`
  pub b64decode : Text → Option Bytes
  pub b64decode_strict : Text → Option Bytes
  pub b58decode : Text → Option Bytes
  pub parse_int : Text → Option ℤ
  pub sha256 : Bytes → Bytes
  -- `self._priv.sign`
  pub sign : Bytes → Bytes

-- The fields of `NearClient` that its methods read.
pub record Client : Type 0 where
  pub account_id : Text
  pub public_key : Bytes
  pub public_key_str : Text
