-- ===== src/Prelude/Url.antt =====
-- `net/url`: a parsed URL, in the fields that the flags use.
use Prim.Native.String.{String}

pub record Url : Type 0 where
  pub scheme : String
  pub host : String
  pub path : String
