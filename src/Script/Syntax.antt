-- ===== src/Script/Syntax.antt =====
-- The definitions of src/script/parser.rs. The bodies of `If` are lists of commands of their own type.
use modular_rust_reverse_pro.Base.{ℕ, Bool, List, Text, ℤ}

mutual
  pub data Command : Type 0 where
    if_cmd : (field op value : Text) → Commands → Command
    respond : (code : ℕ) → (content_type body : Text) → Command
    set_header_cmd : (name value : Text) → Command
    log : (level msg : Text) → Command
    set_ctx : (key value : Text) → Command
    std_call : (func : Text) → (args : List Text) → Command

  pub data Commands : Type 0 where
    nil : Commands
    cons : Command → Commands → Commands

-- `cmds.push(cmd)` on the front part of a list
abbrev pub append : Commands → Commands → Commands
append nil ds = ds
append (cons c cs) ds = cons c (append cs ds)

pub data FieldType : Type 0 where
  bool int str list : FieldType

pub data FieldValue : Type 0 where
  bool_value : Bool → FieldValue
  int_value : ℤ → FieldValue
  str_value : Text → FieldValue
  list_value : List Text → FieldValue

pub record ConfigField : Type 0 where
  pub key : Text
  pub typ : FieldType
  pub default : FieldValue

pub record ScriptDef : Type 0 where
  pub name : Text
  pub version : Text
  pub priority : ℤ
  pub overrides : List Text
  pub config : List ConfigField
  pub on_request : Commands
  pub on_response : Commands
  pub on_init : Commands
