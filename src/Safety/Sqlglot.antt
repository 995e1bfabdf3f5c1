-- ===== src/Safety/Sqlglot.antt =====
-- What the safety guards use of sqlglot (a third-party parser) and of Python's Unicode tables. The
-- guards take both as parameters; `Class` lists the expression classes that they ask for.
use sqllens.Safety.MysqlText.{Text}
use sqllens.Prelude.{ℕ, String, Bool, Option, List}
use sqllens.Prelude.Result.{Result}

-- the classes named in `isinstance` tests of safety/readonly.py
pub data Class : Type 0 where
  select union intersect except with_chain show : Class
  insert update delete merge drop create alter : Class
  func anonymous : Class

pub data TokenType : Type 0 where
  l_paren var identifier : TokenType
  other_type : ℕ → TokenType

pub record Token : Type 0 where
  pub token_type : TokenType
  pub text : String

-- `type(parser_dialect)`, as far as `_parse_statements` tells dialects apart
pub data DialectType : Type 0 where
  mysql_dialect base_dialect other_dialect : DialectType

-- An exception from a sqlglot call: a ParseError or TokenError, or any other.
pub data ParseFailure : Type 0 where
  sql_error other_error : ParseFailure

-- str.lower, str.upper, str.strip, str.isspace, isalpha of the first character, str.startswith, and
-- s.split(sep, 1)[0]
pub record Unicode : Type 0 where
  pub lower : String → String
  pub upper : String → String
  pub strip : String → String
  pub is_space : ℕ → Bool
  pub starts_alpha : String → Bool
  pub starts_with : String → String → Bool
  pub before : String → String → String

pub record Sqlglot : Type 1 where
  pub Dialect : Type 0
  pub Node : Type 0
  -- Dialect.get_or_raise(name); none stands for its ValueError
  pub get_dialect : String → Option Dialect
  pub no_dialect : Dialect
  pub dialect_type : Dialect → DialectType
  pub tokenize : Dialect → Text → Result ParseFailure (List Token)
  -- tokenizer_class.KEYWORDS
  pub keyword : Dialect → String → Option TokenType
  -- sqlglot.parse: a statement may be None
  pub parse : Dialect → Text → Result ParseFailure (List (Option Node))
  pub parse_one : Dialect → Text → Result ParseFailure (Option Node)
  pub walk : Node → List Node
  pub isinstance : Node → Class → Bool
  pub name : Node → String
  -- type(node).sql_names(); none where the class has no such method
  pub sql_names : Node → Option (List String)
  -- bool(node.args.get("into")), str(node.args.get("this") or "")
  pub has_into : Node → Bool
  pub this_text : Node → String
