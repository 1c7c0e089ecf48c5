-- ===== src/Cel/Syntax.antt =====
-- Tokens and syntax trees. A number token carries the `Decimal` that it denotes.
use brsr_v.Prelude.{ℕ, Option, none, some, Bool, Text}

-- the operator tokens: - + * / % < > ! == != <= >= && ||
pub data Op : Type 0 where
  plus minus times slash percent lt gt bang eq ne le ge and or : Op

pub data Token (D : Type 0) : Type 0 where
  num : D → Token D
  str : Text → Token D
  ident : Text → Token D
  op : Op → Token D
  lparen rparen comma qmark colon : Token D
  bool : Bool → Token D
  nil eof : Token D

-- `Args` is the array of arguments of a call.
mutual
  pub data Node (D : Type 0) : Type 0 where
    num : D → Node D
    str : Text → Node D
    bool : Bool → Node D
    nil : Node D
    ref : Text → Node D
    unary : Op → Node D → Node D
    bin : Op → Node D → Node D → Node D
    cond : Node D → Node D → Node D → Node D
    call : Text → Args D → Node D

  pub data Args (D : Type 0) : Type 0 where
    no_args : Args D
    arg : Node D → Args D → Args D

-- the left and right binding powers
unfoldable pub binary_bp : Op → Option (ℕ × ℕ)
binary_bp or = some (2, 3)
binary_bp and = some (4, 5)
binary_bp eq = some (6, 7)
binary_bp ne = some (6, 7)
binary_bp lt = some (8, 9)
binary_bp le = some (8, 9)
binary_bp gt = some (8, 9)
binary_bp ge = some (8, 9)
binary_bp plus = some (10, 11)
binary_bp minus = some (10, 11)
binary_bp times = some (12, 13)
binary_bp slash = some (12, 13)
binary_bp percent = some (12, 13)
binary_bp bang = none
