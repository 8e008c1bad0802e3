-- ===== src/TopicManager/Defaults.antt =====
-- src/topic_manager.rs: the managers over the default configuration.
use herbert.Prelude.{[], ◌⊎◌, Bytes}
use herbert.Outcome.{IoError, Outcome, fresh}
use herbert.Config.{default}
use herbert.Storage.InMemoryLog.{InMemoryLog}
use herbert.Storage.InMemoryLog as Log
use herbert.Storage.InMemoryQueue.{InMemoryQueue}
use herbert.Storage.InMemoryQueue as Queue
use herbert.TopicManager.Operations.{TopicManager, new}

module _ {Schema Batch Fault : Type 0} where
  -- `opened` is what opening the default path of the log gives.
  unfoldable pub default_log :
      IoError ⊎ Bytes → Outcome Fault (TopicManager Schema Batch (InMemoryLog Batch))
  default_log opened = new Log.new (fresh []) default opened

  -- `Default::default`, which is over a queue.
  unfoldable pub default_queue :
      IoError ⊎ Bytes → Outcome Fault (TopicManager Schema Batch (InMemoryQueue Batch))
  default_queue opened = new Queue.new (fresh []) default opened
