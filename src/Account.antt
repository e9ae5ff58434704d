-- ===== src/Account.antt =====
-- Accounts (account/account.go, token.go, permission.go and its two kinds): what an account holds,
-- and the operations on its balances. A balance is a *big.Int, an integer of any size.
pub mod Balances
use topia.Base.{
  ℕ, zero, suc, ◌+◌, Bool, true, false, Option, none, some, List, [], ◌∷◌, String, if◌then◌else◌,
}
use topia.Base.Eq.{◌==◌, string_eq}
use topia.Base.Words.{add_u64}
use topia.Base.Int.{ℤ, pos, ◌+ℤ◌, ◌-ℤ◌, ltb_ℤ}
use topia.Base.Map.{Map, lookup, insert}

pub data PermissionModel : Type 0 where
  unknown_model : PermissionModel
  root_model : PermissionModel
  contract_method_model : PermissionModel

abbrev pub model_name : PermissionModel → String
model_name unknown_model = "Unknown"
model_name root_model = "ROOT"
model_name contract_method_model = "ContractMethod"

unfoldable pub model_value : String → PermissionModel
model_value name =
    if name == "ROOT"
    then root_model
    else if name == "ContractMethod"
    then contract_method_model
    else unknown_model

-- The two implementations of the interface: a root's, and a list of methods for each contract.
pub data Permission : Type 0 where
  permission_root : Permission
  permission_contract_method : ℕ → Map String (List String) → Permission

abbrev pub is_root : Permission → Bool
is_root permission_root = true
is_root (permission_contract_method gas_limit methods) = false

abbrev pub new_permission_contract_method : ℕ → Permission
new_permission_contract_method gas_limit = permission_contract_method gas_limit []

pub record AccountToken : Type 0 where
  pub nonce : ℕ
  pub perm_mode : PermissionModel
  pub permission : Permission

abbrev pub new_account_token : Permission → AccountToken
new_account_token perm = record {
  nonce = 0;
  perm_mode = if is_root perm then root_model else contract_method_model;
  permission = perm;
}

pub record Account : Type 0 where
  pub addr : String
  pub nonce : ℕ
  pub name : String
  pub token : AccountToken
  pub balances : Map String ℤ
  pub code_hash : String
  pub version : ℕ

abbrev pub new_default_account : String → Account
new_default_account addr = record {
  addr = addr;
  nonce = 0;
  name = "";
  token = new_account_token permission_root;
  balances = [];
  code_hash = "";
  version = 1;
}

-- Every name is valid.
abbrev pub new_contract_control_account : String → String → ℕ → Account
new_contract_control_account addr name gas_limit = record {
  addr = addr;
  nonce = 0;
  name = name;
  token = new_account_token (new_permission_contract_method gas_limit);
  balances = [];
  code_hash = "";
  version = 1;
}

abbrev pub bind_name : Account → String → Account
bind_name a name = record a { name = name }

abbrev pub with_balances : Account → Map String ℤ → Account
with_balances a balances = record a { balances = balances }

abbrev pub or_nothing : Option ℤ → ℤ
or_nothing none = pos 0
or_nothing (some value) = value

unfoldable pub balance_increase : Account → String → ℤ → Account
balance_increase a symbol value =
    with_balances a (insert symbol (or_nothing (lookup symbol a.balances) +ℤ value) a.balances)

abbrev pub decreased : Account → String → ℤ → Option ℤ → Option Account
decreased a symbol value none = none
decreased a symbol value (some held) =
    if ltb_ℤ held value
    then none
    else some (with_balances a (insert symbol (held -ℤ value) a.balances))

-- `none` is the error of an insufficient balance.
unfoldable pub balance_decrease : Account → String → ℤ → Option Account
balance_decrease a symbol value = decreased a symbol value (lookup symbol a.balances)

abbrev pub nonce_increase : Account → Account
nonce_increase a = record a { nonce = add_u64 a.nonce 1 }
