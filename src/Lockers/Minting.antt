-- ===== src/Lockers/Minting.antt =====
-- src/lockers/llm.rs: what each task of one call of `start_minting` does to the list of locked ids
-- and to the call's channels.
use hoopoe.Base.{
  ℕ, ℤ, List, [], ◌∷◌, ◌++◌, Bool, true, false, not, ◌||◌, Option, none, some, if◌then◌else◌, eq_ℤ,
}

pub record Product : Type 0 where
  pub pid : ℤ
  pub buyer_id : ℤ
  pub is_minted : Bool

pub data PurchasingStatus : Type 0 where
  minting locked finished : PurchasingStatus

-- `contains`, and `retain` of the other ids.
unfoldable pub contains : ℤ → List ℤ → Bool
contains pid [] = false
contains pid (p ∷ ps) = eq_ℤ p pid || contains pid ps

unfoldable pub retain_others : ℤ → List ℤ → List ℤ
retain_others pid [] = []
retain_others pid (p ∷ ps) =
    let rest = retain_others pid ps in if eq_ℤ p pid then rest else p ∷ rest

-- The task that mints: it has yet to send the product, has yet to give back the lock, or is over.
pub data Minter : Type 0 where
  at_work sent over : Minter

-- One call: its product, whether the task that looks at the lock has run, the task that mints, the
-- channel of statuses, the channel of products, and what the call answered.
pub record Call : Type 0 where
  pub product : Product
  pub checked : Bool
  pub minter : Minter
  pub statuses : List PurchasingStatus
  pub products : List Product
  pub answer : Option PurchasingStatus

unfoldable pub start_minting : Product → Call
start_minting product = record {
  product = product;
  checked = false;
  minter = at_work;
  statuses = [];
  products = [];
  answer = none;
}

-- `mint` of the product: no error, and the product as it was.
unfoldable pub mint : Product → Bool × Product
mint product = (false, product)

-- The task that looks at the lock.
unfoldable pub check_lock : List ℤ → Call → List ℤ × Call
unfolding contains
check_lock lock_ids c =
    if contains c.product.pid lock_ids
    then (lock_ids, record c { checked = true; statuses = c.statuses ++ minting ∷ [] })
    else (
      lock_ids ++ c.product.pid ∷ [],
      record c { checked = true; statuses = c.statuses ++ locked ∷ [] },
    )

-- The task that mints, up to the product's channel.
unfoldable pub send_product : Call → Call
unfolding mint
send_product c =
    let (err, pinfo) = mint c.product in
    record c {
      minter = sent;
      products = c.products ++ (if not err then record pinfo { is_minted = true } else pinfo) ∷ [];
    }

-- Its rest: the id leaves the list.
unfoldable pub give_back : List ℤ → Call → List ℤ × Call
unfolding retain_others
give_back lock_ids c = (
  retain_others c.product.pid lock_ids,
  record c { minter = over; statuses = c.statuses ++ finished ∷ [] },
)

-- `select!` in the caller: the first status, or that the minting task is over.
unfoldable pub select_status : Call → Option PurchasingStatus
select_status c = elim c.statuses [ [] ↦ none | status ∷ rest ↦ some status ]

-- The answer of the handler `mint`: the status code, and whether it carries the minted product.
unfoldable pub answer_mint : PurchasingStatus → Option Product → Option (ℕ × Option Product)
answer_mint minting product = some (423, none)
answer_mint locked none = none
answer_mint locked (some product) = some (200, some product)
answer_mint finished none = none
answer_mint finished (some product) = some (200, some product)
