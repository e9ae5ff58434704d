-- ===== src/TxPool/Wrapper.antt =====
-- transaction_pool/core/tx_wrapper_uni.go. `TxWrapperUni` is the only type that implements
-- `TxWrapper`, so the type assertions of `Less` and `CanReplace` succeed. Time is a number.
use topia.Base.{
  ℕ, String, Bool, true, false, ◌&&◌, not, Option, none, some, ltb, ◌=?◌, if◌then◌else◌, [],
}
use topia.Base.Eq.{◌==◌, string_eq}
use topia.Base.Map.{Map, lookup, insert, is_some}
use topia.Transaction.Types.{Tx, TransactionUniversal}

pub data TxState : Type 0 where
  unknown added packed published republished dropped_for_tx_pool_full removed : TxState

abbrev pub is_packed : TxState → Bool
is_packed packed = true
is_packed _ = false

abbrev pub is_republished : TxState → Bool
is_republished republished = true
is_republished _ = false

pub data SortWay : Type 0 where
  unknown misc height time : SortWay

pub record TxWrapperUni : Type 0 where
  pub tx_id : String
  pub category : String
  pub tx_state : TxState
  pub size : ℕ
  pub time_stamp : ℕ
  pub height : ℕ
  pub from_addr : String
  pub nonce : ℕ
  pub gas_price : ℕ
  pub from_peers : Map String (Unit {0})
  pub orgin_tx : Tx

-- The protobuf decoder, the transaction's id and its encoded size are not under transaction_pool.
module _ (unmarshal : String → Option TransactionUniversal) (tx_id_of : Tx → String)
    (size_of : Tx → ℕ) where
  pub generate_tx_wrapper_uni : Tx → ℕ → ℕ → Option TxWrapperUni
  generate_tx_wrapper_uni tx cur_height now = elim (unmarshal tx.body.specification) [
    | none ↦ none
    | some tx_uni ↦ some (record {
      tx_id = tx_id_of tx;
      category = tx.head.category;
      tx_state = TxState.unknown;
      size = size_of tx;
      time_stamp = now;
      height = cur_height;
      from_addr = tx.head.from_addr;
      nonce = tx.head.nonce;
      gas_price = tx_uni.head.gas_price;
      from_peers = [];
      orgin_tx = tx;
    })
  ]

pub update_state : TxWrapperUni → TxState → TxWrapperUni
update_state tw s = record tw { tx_state = s }

pub add_from_peer : TxWrapperUni → String → TxWrapperUni × Bool
add_from_peer tw peer_id =
    if is_some (lookup peer_id tw.from_peers)
    then (tw, false)
    else (record tw { from_peers = insert peer_id tt tw.from_peers }, true)

-- The same body as `AddFromPeer` in the source: it answers false for a known peer and adds a new one.
pub has_from_peer : TxWrapperUni → String → TxWrapperUni × Bool
has_from_peer tw peer_id =
    if is_some (lookup peer_id tw.from_peers)
    then (tw, false)
    else (record tw { from_peers = insert peer_id tt tw.from_peers }, true)

-- The three tests of `lessMisc`, in order.
unfoldable pub less_misc : TxWrapperUni → TxWrapperUni → Bool
less_misc tw target =
    if ltb target.gas_price tw.gas_price
    then true
    else (if (tw.gas_price =? target.gas_price) && ltb tw.height target.height
        then true
        else (if (tw.height =? target.height) && ltb tw.time_stamp target.time_stamp
            then true
            else false))

-- `none` is the panic of an invalid sort way.
unfoldable pub less : TxWrapperUni → SortWay → TxWrapperUni → Option Bool
unfolding less_misc
less tw SortWay.misc target = some (less_misc tw target)
less tw SortWay.height target = some (ltb tw.height target.height)
less tw SortWay.time target = some (ltb tw.time_stamp target.time_stamp)
less tw SortWay.unknown target = none

unfoldable pub can_replace : TxWrapperUni → TxWrapperUni → Bool
can_replace tw other =
    not (is_packed tw.tx_state)
    && (other.from_addr == tw.from_addr)
    && (other.nonce =? tw.nonce)
    && ltb tw.gas_price other.gas_price
