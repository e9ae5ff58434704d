-- ===== src/Transaction/Types.antt =====
-- The messages of transaction/basic and transaction/universal. Go's `[]byte` and `string` are both
-- `String` here, so the conversions between them are the identity; a `nil` slice is the empty text.
use topia.Base.{ℕ, String}

pub record TransactionHead : Type 0 where
  pub category : String
  pub chain_id : String
  pub version : ℕ
  pub time_stamp : ℕ
  pub index : ℕ
  pub from_addr : String
  pub nonce : ℕ
  pub signature : String

pub record TransactionData : Type 0 where
  pub specification : String

pub record Tx : Type 0 where
  pub head : TransactionHead
  pub body : TransactionData

pub record TransactionUniversalHead : Type 0 where
  pub version : ℕ
  pub fee_payer : String
  pub gas_price : ℕ
  pub gas_limit : ℕ
  pub kind : ℕ
  pub fee_payer_signature : String
  pub options : ℕ

pub record TransactionUniversal : Type 0 where
  pub head : TransactionUniversalHead
  pub body : TransactionData
