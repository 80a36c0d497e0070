-- ===== src/Resources/Info.antt =====
-- The names and descriptions of the charts (src/main/resources/web-data/js/strings.js).
use dyn_dco.Base.{String, Option, some, List, [], ◌∷◌, ◌++◌, lookup}

pub record ChartInfo : Type 0 where
  pub name : Option String
  pub info : Option String

abbrev described : String → String → ChartInfo
described name info = record { name = some name; info = some info }

-- Of the statistics of workers.
abbrev worker_info : List (String × ChartInfo)
worker_info =
    (
      "messagesSent",
      described "Messages Sent in Total (#)"
          "The number of messages that were sent in total (including messages to nodes, workers, others, or the coordinator) per worker.",
    )
    ∷ (
      "messagesSentToNodes",
      described "Messages Sent to Nodes (#)"
          "The number of messages that were sent to nodes per worker.",
    )
    ∷ (
      "messagesSentToWorkers",
      described "Messages Sent to Workers (#)"
          "The number of messages that were sent to workers per worker.",
    )
    ∷ (
      "messagesSentToCoordinator",
      described "Messages Sent to Coordinator (#)"
          "The number of messages that were sent to the coordinator per worker.",
    )
    ∷ (
      "messagesSentToOthers",
      described "Messages Sent to Others (#)"
          "The number of messages that were sent to others per worker.",
    )
    ∷ (
      "messagesReceived",
      described "Messages Received in Total (#)"
          "The number of messages that were received in total per worker.",
    )
    ∷ (
      "signalMessagesReceived",
      described "Signal Messages Received (#)"
          "The number of signal messages that were received per worker.",
    )
    ∷ (
      "otherMessagesReceived",
      described "Other Messages Received (#)"
          "The number of other messages that were received per worker.",
    )
    ∷ (
      "requestMessagesReceived",
      described "Request Messages Received (#)"
          "The number of request messages that were received per worker.",
    )
    ∷ (
      "continueMessagesReceived",
      described "Continue Messages Received (#)"
          "The number of continue messages that were received per worker.",
    )
    ∷ (
      "bulkSignalMessagesReceived",
      described "Bulk Signal Messages Received (#)"
          "The number of bulk signal messages that were received per worker.",
    )
    ∷ (
      "heartbeatMessagesReceived",
      described "Heartbeat Messages Received (#)"
          "The number of heartbeat messages that were received per worker.",
    )
    ∷ (
      "receiveTimeoutMessagesReceived",
      described "Timeout Messages Received (#)"
          "The number of timeout messages that were received per worker.",
    )
    ∷ (
      "outgoingEdgesAdded",
      described "Outgoing Edges Added (#)"
          "The number of outgoing edges that were added after the initial graph loading per worker.",
    )
    ∷ (
      "outgoingEdgesRemoved",
      described "Outgoing Edges Removed (#)"
          "The number of outgoing edges that were removed after the initial graph loading per worker.",
    )
    ∷ (
      "numberOfOutgoingEdges",
      described "Number of Outgoing Edges (#)" "The number of outgoing edges per worker.",
    )
    ∷ (
      "verticesRemoved",
      described "Vertices Removed (#)"
          "The number of vertices that were removed after the initial graph loading per worker.",
    )
    ∷ (
      "verticesAdded",
      described "Vertices Added (#)"
          "The number of vertices that were added after the initial graph loading per worker.",
    )
    ∷ ("numberOfVertices", described "Number of Vertices (#)" "The number of vertices per worker.")
    ∷ (
      "signalOperationsExecuted",
      described "Signal Operations Executed (#)"
          "The number of signal operations executed per worker.",
    )
    ∷ (
      "collectOperationsExecuted",
      described "Collect Operations Executed (#)"
          "The number of collect operations executed per worker.",
    )
    ∷ (
      "toCollectSize",
      described "To Collect Size (#)" "The size of the To-Collect inbox per worker.",
    )
    ∷ ("toSignalSize", described "To Signal Size (#)" "The size of the To-Signal inbox per worker.")
    ∷ ("workerId", described "Worker ID" "The ID of the individual workers.")
    ∷ []

-- Of the statistics of nodes.
abbrev node_info : List (String × ChartInfo)
node_info =
    (
      "runtime_cores",
      described "Available Processor Cores (#)" "The number of available processor cores per node.",
    )
    ∷ (
      "jmx_system_load",
      described "System CPU Load per Core"
          "CPU load of the whole system per processor core (most computers have more than one core). Value is between 0.0 and 1.0.",
    )
    ∷ (
      "jmx_system_load_node",
      described "System CPU Load"
          "CPU load of the whole node. Value is between 0.0 and the number of cores.",
    )
    ∷ (
      "jmx_process_time",
      described "Process CPU Time per Core"
          "CPU time used by the process on which the JVM is running in nanoseconds per core.",
    )
    ∷ (
      "jmx_process_time_node",
      described "Process CPU Time"
          "CPU time used by the process on which the JVM is running in nanoseconds per node.",
    )
    ∷ (
      "jmx_process_load",
      described "Process CPU Load per Core" "Recent CPU usage for the JVM process per core.",
    )
    ∷ (
      "jmx_process_load_node",
      described "Process CPU Load" "Recent CPU usage for the JVM process per node.",
    )
    ∷ (
      "jmx_swap_free",
      described "Free Swap Space Size" "Amount of free swap space in byte per node.",
    )
    ∷ (
      "jmx_swap_total",
      described "Total Swap Space Size" "Total amount of swap space in byte per node.",
    )
    ∷ (
      "jmx_mem_total",
      described "Total Physical Memory Size"
          "Total physical memory (RAM) size in byte per node, not all of this may be used for the process.",
    )
    ∷ (
      "jmx_mem_free",
      described "Free Physical Memory Size"
          "Amount of free physical memory (RAM) size in byte per node, not all of this may be used for the process.",
    )
    ∷ (
      "jmx_committed_vms",
      described "Committed Virtual Memory Size"
          "Amount of virtual memory in bytes that is guaranteed to be available to the running process per node.",
    )
    ∷ (
      "runtime_mem_max",
      described "Max Memory"
          "Maximum memory in bytes that can be used by the JVM per node. This value is configurable in the JVM.",
    )
    ∷ (
      "runtime_mem_free",
      described "Free Memory" "Approximation of the free memory in bytes per node.",
    )
    ∷ (
      "runtime_mem_total",
      described "Used Memory"
          "Total amount of allocated memory in bytes per node. This value may increase up to 'Max Memory'.",
    )
    ∷ []

-- `chartInfo`
abbrev pub chart_info : String → Option ChartInfo
chart_info name = lookup name (worker_info ++ node_info)
