-- ===== src/Core.antt =====
-- kafkatch-core: the service that reads the messages of the sniffer and adds the flows of a window.
pub mod Flow
pub mod Jackson
pub mod Parser
pub mod Aggregate
pub mod Publish
pub mod Readable
pub mod Uniques
pub mod Measures
pub mod Sent
pub mod Pipeline
pub mod Delivery
pub mod FlowKey
pub mod Splitter
pub mod Serializers
