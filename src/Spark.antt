-- ===== src/Spark.antt =====
-- processors/spark: the parts that decide what a Spark job computes.
pub mod SparkTypes
