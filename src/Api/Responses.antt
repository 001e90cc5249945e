-- ===== src/Api/Responses.antt =====
-- models/responses/.
use stock_trader.Prelude.{ℕ, Option, List, String}
use stock_trader.Errors.{Message}
use stock_trader.Models.{BacktestStatus}
use stock_trader.Jobs.Table.{JobTypes, Job}

pub record BacktestCreateResponse : Type 0 where
  pub uuid : ℕ
  pub status : BacktestStatus

module _ (types : JobTypes) where
  pub record BacktestResponse : Type 0 where
    pub uuid : ℕ
    pub status : BacktestStatus
    pub strategy_name : String
    pub symbols : List String
    pub parameters : types.Parameters
    pub error : Option Message
    pub create_time : ℕ
    pub start_time : Option ℕ
    pub end_time : Option ℕ

  unfoldable pub from_job : Job types → BacktestResponse
  from_job job = record {
    uuid = job.uuid;
    status = job.status;
    strategy_name = job.strategy_name;
    symbols = job.symbols;
    parameters = job.parameters;
    error = job.error;
    create_time = job.create_time;
    start_time = job.start_time;
    end_time = job.end_time;
  }
